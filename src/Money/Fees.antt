-- ===== src/Money/Fees.antt =====
-- Bounds, exactness and rounding of the platform fee.
use mini_payment_gateway.Prelude.{ℕ, ◌*◌, ◌/◌, ◌<◌, ◌≡◌, ◌+◌, suc, ◌⊎◌, inl, inr, ap, ◌∙◌, arith}
use mini_payment_gateway.Prelude.Int.{pos}
use mini_payment_gateway.Prelude.Int64.{half_range, mul64}
use mini_payment_gateway.Money.{fee, bps_unit}

mul64_pos : (a b : ℕ) → a * b < half_range → mul64 (pos a) (pos b) ≡ pos (a * b)
unfolding mul64
mul64_pos a b h = ground arith

-- Where the product of the amount and the rate fits an int64, Fee is the product divided by ten
-- thousand, rounded down.
pub fee_exact : (a b : ℕ) → a * b < half_range → fee (pos a) (pos b) ≡ pos (a * b / bps_unit)
unfolding fee
fee_exact a b h = ground (arith, mul64_pos a b h)

-- The quotient of a sum.
quotient_of_sum :
    (x y : ℕ)
    → ((x + y) / bps_unit ≡ x / bps_unit + y / bps_unit)
      ⊎ ((x + y) / bps_unit ≡ suc (x / bps_unit + y / bps_unit))
quotient_of_sum x y = omega arith

-- Where the product of the total and the rate fits an int64, the fee of a total of two parts is the
-- sum of the quotients of the parts, or one more.
pub fee_split :
    (a c b : ℕ)
    → (a + c) * b < half_range
    → (fee (pos (a + c)) (pos b) ≡ pos (a * b / bps_unit + c * b / bps_unit))
      ⊎ (fee (pos (a + c)) (pos b) ≡ pos (suc (a * b / bps_unit + c * b / bps_unit)))
fee_split a c b h =
    let e = fee_exact (a + c) b h in
    let product : (a + c) * b ≡ a * b + c * b = omega arith in
    let e' : fee (pos (a + c)) (pos b) ≡ pos ((a * b + c * b) / bps_unit) =
      e ∙ ap (λ x. pos (x / bps_unit)) product in
    elim (quotient_of_sum (a * b) (c * b)) [
      | inl q ↦ inl (e' ∙ ap pos q)
      | inr q ↦ inr (e' ∙ ap pos q)
    ]
