-- ===== src/RateLimit/Examples.antt =====
-- A limiter of two requests in a minute, over a server that holds its counters in a list.
use mini_payment_gateway.Prelude.{
  ℕ, suc, ◌≤◌, ◌≡◌, refl, ap, sym, ◌∙◌, inl, inr, Bool-cases, List, [], ◌∷◌, Result, ok, err, ◌==◌,
  ==_iff, if◌then◌else◌, arith,
}
use mini_payment_gateway.Prelude.Int.{pos, negsuc}
use mini_payment_gateway.Domain.Errors.{Error}
use mini_payment_gateway.RateLimit.{
  Limiter, new_limiter, Pipeline, IsCounter, allow, Verdict, rate_limit,
}
use mini_payment_gateway.RateLimit.Windows.{let_through, let_through_bound}

abbrev two_a_minute : Limiter
two_a_minute = record { limit = 2; window = 60000000000 }

abbrev count : ℕ → List (ℕ × ℕ) → ℕ
count k [] = 0
count k ((b, n) ∷ cs) = if b == k then n else count k cs

abbrev pipeline : Pipeline (List (ℕ × ℕ))
pipeline k cs = (ok (suc (count k cs)), (k, suc (count k cs)) ∷ cs)

abbrev broken : Pipeline (List (ℕ × ℕ))
broken k cs = (err Error.internal, cs)

third_refused :
    rate_limit (allow pipeline two_a_minute 61000000000 61500000000 ((1, 2) ∷ [])).0
    ≡ Verdict.refused 58
unfolding rate_limit allow
third_refused = refl

next_window_served :
    rate_limit (allow pipeline two_a_minute 120000000000 120000000000 ((1, 2) ∷ [])).0
    ≡ Verdict.served
unfolding rate_limit allow
next_window_served = refl

fails_open : rate_limit (allow broken two_a_minute 0 0 []).0 ≡ Verdict.served
unfolding rate_limit allow
fails_open = refl

clamps : new_limiter (negsuc 0) (pos 0) ≡ record { limit = 1; window = 60000000000 }
unfolding new_limiter
clamps = refl

count_keeps : (k b : ℕ) (cs : List (ℕ × ℕ)) → count b cs ≤ count b (pipeline k cs).1
count_keeps k b cs = elim (Bool-cases (k == b)) [
  | inl h ↦ let same = ap (λ x. count x cs) ((==_iff k b).0 h) in rw h (omega arith)
  | inr h ↦ rw h (omega arith)
]

count_self : (k n : ℕ) (cs : List (ℕ × ℕ)) → count k ((k, n) ∷ cs) ≡ n
count_self k n cs = ground arith

abbrev reply : Result Error ℕ → ℕ
reply (ok n) = n
reply (err e) = 0

pipeline-IsCounter : IsCounter count pipeline
pipeline-IsCounter = record {
  answer = λ {k} {r} {r'} {n} q.
      let answered = ap (λ p. reply p.0) q in
      let left = ap (λ p. count k p.1) q in
      (sym answered, sym left ∙ (count_self k (suc (count k r)) r ∙ answered));
  keeps = count_keeps;
}

let_through_bound_example :
    let_through pipeline
      (new_limiter (pos 1) (pos 10))
      0
      ((1, 1) ∷ (2, 3) ∷ (11, 12) ∷ (9, 9) ∷ [])
      []
    ≤ 1
let_through_bound_example =
    let_through_bound (pos 1) (pos 10) 0 ((1, 1) ∷ (2, 3) ∷ (11, 12) ∷ (9, 9) ∷ []) []
      pipeline-IsCounter (omega arith) refl
