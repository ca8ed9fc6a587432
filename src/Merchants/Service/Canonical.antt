-- ===== src/Merchants/Service/Canonical.antt =====
-- The signed bytes of a request determine its parts.
use mini_payment_gateway.Prelude.{◌≡◌, ◌≢◌, refl, [], ◌∷◌, ◌++◌}
use mini_payment_gateway.Prelude.Lists.{All}
use mini_payment_gateway.Text.{Bytes}
use mini_payment_gateway.Merchants.Service.{canonical}

-- No line feed among the bytes.
abbrev pub IsOneLine : Bytes → Type 0
IsOneLine = All (λ c. c ≢ 10)

join_inj :
    (s t : Bytes) {u v : Bytes}
    → IsOneLine s
    → IsOneLine t
    → s ++ (10 ∷ u) ≡ t ++ (10 ∷ v)
    → (s ≡ t) × (u ≡ v)
join_inj [] [] h k e = (refl, cc)
join_inj [] (c ∷ t) h k e = absurd (k.0 (cc))
join_inj (c ∷ s) [] h k e = absurd (h.0 (cc))
join_inj (c ∷ s) (d ∷ t) {u} {v} h k e =
    let (same, rest) = join_inj s t {u = u} {v = v} h.1 k.1 (cc) in (cc, rest)

-- Two requests with the same signed bytes have the same timestamp, method, path and body, if no
-- timestamp, method or path has a line feed in it.
pub canonical_inj :
    (timestamp http_method path body timestamp' http_method' path' body' : Bytes)
    → IsOneLine timestamp
    → IsOneLine http_method
    → IsOneLine path
    → IsOneLine timestamp'
    → IsOneLine http_method'
    → IsOneLine path'
    → canonical timestamp http_method path body ≡ canonical timestamp' http_method' path' body'
    → (timestamp ≡ timestamp') × (http_method ≡ http_method') × (path ≡ path') × (body ≡ body')
unfolding canonical
canonical_inj ts m p b ts' m' p' b' h1 h2 h3 k1 k2 k3 e =
    let (same_time, rest) = join_inj ts ts' h1 k1 e in
    let (same_method, rest2) = join_inj m m' h2 k2 rest in
    let (same_path, same_body) = join_inj p p' h3 k3 rest2 in
    (same_time, same_method, same_path, same_body)
