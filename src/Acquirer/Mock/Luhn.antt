-- ===== src/Acquirer/Mock/Luhn.antt =====
-- The checksum of a card number.
use mini_payment_gateway.Prelude.{
  ℕ, ◌+◌, ◌%◌, ◌≤◌, ◌≡◌, ◌≢◌, refl, Bool, true, false, Bool-cases, inl, inr, [], ◌∷◌, ◌++◌, ◌==◌,
  ==_iff, arith,
}
use mini_payment_gateway.Text.{Bytes}
use mini_payment_gateway.Acquirer.Mock.{luhn_weight, luhn_loop, luhn}

abbrev pub IsDigit : ℕ → Type 0
IsDigit c = (48 ≤ c) × (c ≤ 57)

-- Two digits weigh the same modulo ten only if they are the same digit.
luhn_weight_inj :
    (alt : Bool) (c d m n : ℕ)
    → IsDigit c
    → IsDigit d
    → c ≢ d
    → m + luhn_weight alt d ≡ n + luhn_weight alt c
    → m % 10 ≡ 0
    → n % 10 ≢ 0
luhn_weight_inj true c d m n hc hd ne e h = ground arith
luhn_weight_inj false c d m n hc hd ne e h = ground arith

add_same : (a b x y z : ℕ) → a + x ≡ b + y → a + z + x ≡ b + z + y
add_same a b x y z h = omega arith

-- Two numbers that differ in one digit differ by the weights of the digits.
luhn_loop_differ :
    (p t : Bytes) (c d : ℕ)
    → ((luhn_loop (p ++ c ∷ t)).0 + luhn_weight (luhn_loop t).1 d
        ≡ (luhn_loop (p ++ d ∷ t)).0 + luhn_weight (luhn_loop t).1 c)
      × ((luhn_loop (p ++ c ∷ t)).1 ≡ (luhn_loop (p ++ d ∷ t)).1)
unfolding luhn_loop
luhn_loop_differ [] t c d = (omega arith, refl)
luhn_loop_differ (b ∷ p) t c d =
    let (sums, parity) = luhn_loop_differ p t c d in rw parity (add_same _ _ _ _ _ sums, refl)

-- A number of a card with a valid checksum has none after one of its digits is changed to another
-- digit.
pub luhn_detects :
    (p t : Bytes) (c d : ℕ)
    → IsDigit c
    → IsDigit d
    → c ≢ d
    → luhn (p ++ c ∷ t) ≡ true
    → luhn (p ++ d ∷ t) ≡ false
unfolding luhn
luhn_detects p t c d hc hd ne h =
    let (sums, _) = luhn_loop_differ p t c d in
    let before : (luhn_loop (p ++ c ∷ t)).0 % 10 ≡ 0 = (==_iff _ 0).0 h in
    let refuted = luhn_weight_inj (luhn_loop t).1 c d _ _ hc hd ne sums before in
    elim (Bool-cases ((luhn_loop (p ++ d ∷ t)).0 % 10 == 0)) [
      | inl e ↦ absurd (refuted ((==_iff _ 0).0 e))
      | inr e ↦ e
    ]
