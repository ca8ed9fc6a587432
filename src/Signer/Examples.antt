-- ===== src/Signer/Examples.antt =====
-- Signature headers on concrete values, with a hash of our own in place of HMAC-SHA256.
use mini_payment_gateway.Prelude.{ℕ, ◌+◌, ◌≡◌, refl, ◌↔◌, [], ◌∷◌, ok, err, arith}
use mini_payment_gateway.Prelude.Int.{ℤ, pos, negsuc}
use mini_payment_gateway.Clock.{unix, unix_seconds, seconds, Near}
use mini_payment_gateway.Text.{Bytes, codes}
use mini_payment_gateway.Signer.{
  SignatureError, Hmac, compute_signature, sign, parse_header, verify,
}
use mini_payment_gateway.Signer.Headers.{IsHmac, verify-sign, verify_iff}

abbrev sum : ℕ → Bytes → ℕ
sum n [] = n
sum n (c ∷ s) = sum (n + c) s

abbrev zeros : Bytes
zeros =
    0 ∷ 0 ∷ 0 ∷ 0 ∷ 0 ∷ 0 ∷ 0 ∷ 0 ∷ 0 ∷ 0 ∷ 0 ∷ 0 ∷ 0 ∷ 0 ∷ 0 ∷ 0 ∷ 0 ∷ 0 ∷ 0 ∷ 0 ∷ 0 ∷ 0 ∷ 0 ∷ 0
    ∷ 0 ∷ 0 ∷ 0 ∷ 0 ∷ 0 ∷ 0 ∷ 0 ∷ []

-- One byte of a sum over the secret and the message.
abbrev pub toy_hmac : Hmac
toy_hmac secret message = sum (sum 0 secret) message ∷ zeros

pub toy_hmac-IsHmac : IsHmac toy_hmac
toy_hmac-IsHmac = record { size = λ secret message. refl }

abbrev pub noon : ℤ
noon = pos 1700000000

-- Five minutes and a half of a second later.
abbrev clock : ℤ
clock = pos 1700000299500000000

abbrev tolerance : ℤ
tolerance = pos 300000000000

verify-sign_example :
    verify toy_hmac
      (codes "whsec_1")
      (sign toy_hmac (codes "whsec_1") (pos 1700000000000000007) (codes "{}"))
      (codes "{}")
      clock
      tolerance
    ≡ ok tt
unfolding unix_seconds unix
verify-sign_example =
    verify-sign toy_hmac (codes "whsec_1") (codes "{}") (pos 1700000000000000007) clock tolerance
      toy_hmac-IsHmac (omega arith) (omega arith) (omega arith) (ground arith) (ground arith)

verify_iff_example :
    (verify toy_hmac (codes "k") (codes "v1=00,t=5") (codes "x") clock tolerance ≡ ok tt) ↔ (
      (ts : ℤ) × (parse_header (codes "v1=00,t=5")
        ≡ ok (ts, compute_signature toy_hmac (codes "k") ts (codes "x")))
      × Near tolerance clock (unix ts))
verify_iff_example =
    verify_iff toy_hmac (codes "k") (codes "v1=00,t=5") (codes "x") clock tolerance (omega arith)
      (omega arith)

-- The parts may stand in any order, with white space round them, and the last of two wins.
reads_any_order : parse_header (codes "v1=ab , t=7,x, t=-8") ≡ ok (negsuc 7, codes "ab")
unfolding parse_header
reads_any_order = refl

refuses_incomplete : parse_header (codes "t=7,v1=") ≡ err SignatureError.malformed
unfolding parse_header
refuses_incomplete = refl

-- A timestamp three centuries ahead passes the test of the tolerance.
far_future_accepted :
    verify toy_hmac
      (codes "k")
      (sign toy_hmac (codes "k") (seconds (pos 20000000000)) (codes "x"))
      (codes "x")
      clock
      tolerance
    ≡ ok tt
unfolding verify sign
far_future_accepted = refl

one_day_late_refused :
    verify toy_hmac
      (codes "k")
      (sign toy_hmac (codes "k") (seconds (pos 1699913600)) (codes "x"))
      (codes "x")
      clock
      tolerance
    ≡ err SignatureError.expired
unfolding verify sign
one_day_late_refused = refl
