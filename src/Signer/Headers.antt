-- ===== src/Signer/Headers.antt =====
-- What the signature header round trips, and what Verify accepts.
use mini_payment_gateway.Prelude.{
  ◌<◌, ◌≡◌, ◌≢◌, refl, ap, ◌∙◌, ◌↔◌, inl, false, some, [], ◌∷◌, ◌++◌, Result, ok, err, arith,
}
use mathlib.Core.List.{cons-ne-nil}
use mini_payment_gateway.Prelude.Int.{ℤ, pos, ◌-ℤ◌, ◌≤ℤ◌, ◌<ℤ◌, ltb_ℤ}
use mini_payment_gateway.Prelude.Int64.{InRange, max_int64}
use mini_payment_gateway.Prelude.Lists.{length, All}
use mini_payment_gateway.Domain.Transaction.{Time}
use mini_payment_gateway.Clock.{unix, unix_seconds, drift, Near, drift_iff}
use mini_payment_gateway.Text.{
  Bytes, codes, bytes_eq_refl, bytes_eq→eq, not_empty, hex, IsPlain, hex-All,
}
use mini_payment_gateway.Text.Decimal.{
  format_int, parse_int-format_int, format_int-All, format_int-ne-nil,
}
use mini_payment_gateway.Text.Split.{
  split, cut, trim_space, trim_space_graphic, split_last, split-append, cut-append,
}
use mini_payment_gateway.Signer.{
  SignatureError, Hmac, compute_signature, sign, read_parts, parse_header, verify, judge,
}

-- A sum of HMAC-SHA256 has 32 bytes.
pub record IsHmac (hmac : Hmac) : Type 0 where
  pub size : (secret message : Bytes) → length (hmac secret message) ≡ 32

-- The header as `Sign` lays it out.
abbrev header_of : Bytes → Bytes → Bytes
header_of ts_raw sig = codes "t=" ++ (ts_raw ++ (codes ",v1=" ++ sig))

no_comma : (s : Bytes) → All IsPlain s → All (λ c. c ≢ b',') s
no_comma [] h = tt
no_comma (c ∷ s) h = (h.0.0, no_comma s h.1)

graphic : (s : Bytes) → All IsPlain s → All (λ c. (32 < c) × (c < 127)) s
graphic [] h = tt
graphic (c ∷ s) h = ((h.0.2, h.0.3), graphic s h.1)

split-header :
    (ts_raw sig : Bytes)
    → All IsPlain ts_raw
    → All IsPlain sig
    → split b',' (header_of ts_raw sig) ≡ (codes "t=" ++ ts_raw) ∷ (codes "v1=" ++ sig) ∷ []
split-header ts_raw sig h k =
    split-append b',' (codes "t=" ++ ts_raw) (codes "v1=" ++ sig)
      (omega arith, (omega arith, no_comma ts_raw h))
    ∙ ap (λ parts. (codes "t=" ++ ts_raw) ∷ parts)
        (split_last b',' (codes "v1=" ++ sig)
          (omega arith, (omega arith, (omega arith, no_comma sig k))))

module _ (ts_raw sig : Bytes) where
  cut-t :
      All IsPlain ts_raw → cut b'=' (trim_space (codes "t=" ++ ts_raw)) ≡ some (codes "t", ts_raw)
  cut-t h =
      ap (cut b'=') (
        trim_space_graphic (codes "t=" ++ ts_raw)
          ((omega arith, omega arith), ((omega arith, omega arith), graphic ts_raw h)))
      ∙ cut-append b'=' (codes "t") ts_raw (omega arith, tt)

  cut-v1 : All IsPlain sig → cut b'=' (trim_space (codes "v1=" ++ sig)) ≡ some (codes "v1", sig)
  cut-v1 h =
      ap (cut b'=') (
        trim_space_graphic (codes "v1=" ++ sig) (
          (omega arith, omega arith),
          ((omega arith, omega arith), ((omega arith, omega arith), graphic sig h)),
        ))
      ∙ cut-append b'=' (codes "v1") sig (omega arith, (omega arith, tt))

  read_parts-header :
      All IsPlain ts_raw
      → All IsPlain sig
      → read_parts (split b',' (header_of ts_raw sig)) ([], []) ≡ (ts_raw, sig)
  unfolding read_parts
  read_parts-header h k = rw (split-header ts_raw sig h k, cut-t h, cut-v1 k) refl

-- The header of a time and a signature is read back as them.
parse_header-header :
    (ts : ℤ) (sig : Bytes)
    → InRange ts
    → All IsPlain sig
    → sig ≢ []
    → parse_header (header_of (format_int ts) sig) ≡ ok (ts, sig)
unfolding parse_header
parse_header-header ts sig h k n =
    rw
      (
        read_parts-header (format_int ts) sig (format_int-All ts) k,
        not_empty sig n,
        not_empty (format_int ts) (format_int-ne-nil ts),
        parse_int-format_int ts h,
      )
      refl

hex-ne-nil : (s : Bytes) → length s ≡ 32 → hex s ≢ []
hex-ne-nil [] h = absurd (omega arith)
hex-ne-nil (b ∷ s) h = cons-ne-nil _ _

compute_signature-All :
    (hmac : Hmac) (secret body : Bytes) (ts : ℤ)
    → All IsPlain (compute_signature hmac secret ts body)
unfolding compute_signature
compute_signature-All hmac secret body ts = hex-All _

compute_signature-ne-nil :
    (hmac : Hmac) (secret body : Bytes) (ts : ℤ)
    → IsHmac hmac
    → compute_signature hmac secret ts body ≢ []
unfolding compute_signature
compute_signature-ne-nil hmac secret body ts law = hex-ne-nil _ (law.size secret _)

parse_header-sign :
    (hmac : Hmac) (secret body : Bytes) (ts : Time)
    → IsHmac hmac
    → InRange (unix_seconds ts)
    → parse_header (sign hmac secret ts body)
      ≡ ok (unix_seconds ts, compute_signature hmac secret (unix_seconds ts) body)
unfolding sign
parse_header-sign hmac secret body ts law fits =
    parse_header-header (unix_seconds ts) _ fits
      (compute_signature-All hmac secret body (unix_seconds ts))
      (compute_signature-ne-nil hmac secret body (unix_seconds ts) law)

judge-near :
    (hmac : Hmac) (secret body : Bytes) (now : Time) (tolerance ts : ℤ)
    → ltb_ℤ tolerance (drift now (unix ts)) ≡ false
    → judge hmac secret body now tolerance (ok (ts, compute_signature hmac secret ts body)) ≡ ok tt
unfolding judge
judge-near hmac secret body now tolerance ts near =
    rw (near, bytes_eq_refl (compute_signature hmac secret ts body)) refl

judge_accepts :
    (hmac : Hmac) (secret body : Bytes) (now : Time) (tolerance : ℤ)
    (r : Result SignatureError (ℤ × Bytes))
    → judge hmac secret body now tolerance r ≡ ok tt
    → (ts : ℤ) × (r ≡ ok (ts, compute_signature hmac secret ts body))
      × (ltb_ℤ tolerance (drift now (unix ts)) ≡ false)
unfolding judge
judge_accepts hmac secret body now tolerance (err e) h = cc
judge_accepts hmac secret body now tolerance (ok (ts, sig)) h =
    let same = bytes_eq→eq (compute_signature hmac secret ts body) sig in
    (ts, ground (arith), ground (arith))

-- For a tolerance from zero to below the largest duration, what Sign writes for a payload Verify
-- accepts with the same secret and payload, where a sum of HMAC-SHA256 has 32 bytes, the time in
-- seconds is an int64, and the time of the signature, cut to whole seconds, is within the tolerance
-- of the clock.
pub verify-sign :
    (hmac : Hmac) (secret body : Bytes) (ts now : Time) (tolerance : ℤ)
    → IsHmac hmac
    → InRange (unix_seconds ts)
    → pos 0 ≤ℤ tolerance
    → tolerance <ℤ max_int64
    → unix (unix_seconds ts) -ℤ now ≤ℤ tolerance
    → now -ℤ unix (unix_seconds ts) ≤ℤ tolerance
    → verify hmac secret (sign hmac secret ts body) body now tolerance ≡ ok tt
unfolding verify
verify-sign hmac secret body ts now tolerance law fits p q ahead behind =
    ap (judge hmac secret body now tolerance) (parse_header-sign hmac secret body ts law fits)
    ∙ judge-near hmac secret body now tolerance (unix_seconds ts)
        ((drift_iff tolerance now (unix (unix_seconds ts)) p q).1 (inl (ahead, behind)))

-- For a tolerance from zero to below the largest duration, Verify accepts a header exactly when it
-- is read as a time near the clock and the signature of the payload at that time under the secret;
-- near is within the tolerance, or so far ahead that the difference is the smallest duration.
pub verify_iff :
    (hmac : Hmac) (secret header body : Bytes) (now : Time) (tolerance : ℤ)
    → pos 0 ≤ℤ tolerance
    → tolerance <ℤ max_int64
    → (verify hmac secret header body now tolerance ≡ ok tt) ↔ (
        (ts : ℤ) × (parse_header header ≡ ok (ts, compute_signature hmac secret ts body))
        × Near tolerance now (unix ts))
unfolding verify
verify_iff hmac secret header body now tolerance p q = (
  λ h.
      let (ts, read, near) = judge_accepts hmac secret body now tolerance (parse_header header) h in
      (ts, read, (drift_iff tolerance now (unix ts) p q).0 near),
  λ (ts, read, near).
      ap (judge hmac secret body now tolerance) read
      ∙ judge-near hmac secret body now tolerance ts
          ((drift_iff tolerance now (unix ts) p q).1 near),
)
