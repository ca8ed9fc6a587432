-- ===== src/Clock/Examples.antt =====
-- Times on concrete values.
use mini_payment_gateway.Prelude.{◌≡◌, refl, false}
use mini_payment_gateway.Prelude.Int.{pos, ltb_ℤ}
use mini_payment_gateway.Clock.{unix, drift, seconds, magnitude}

five_minutes :
    ltb_ℤ (seconds (pos 300)) (drift (unix (pos 1700000300)) (unix (pos 1700000000))) ≡ false
unfolding drift unix magnitude
five_minutes = refl
