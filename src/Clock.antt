-- ===== src/Clock.antt =====
-- Times and durations as the package time computes them, where the code compares the time that a
-- request or a payload was signed at with its own: a time is a number of nanoseconds, and a duration
-- an int64.
mod Examples
use mini_payment_gateway.Prelude.{
  ℕ, suc, ◌+◌, ◌-◌, ◌*◌, ◌/◌, ◌≤◌, ◌≡◌, refl, ◌↔◌, ◌⊎◌, true, false, if◌then◌else◌, arith,
}
use mini_payment_gateway.Prelude.Int.{
  ℤ, pos, negsuc, ◌+ℤ◌, ◌-ℤ◌, ◌≤ℤ◌, ◌<ℤ◌, ltb_ℤ, leb_ℤ, int_laws, -ℤ_parts,
}
use mini_payment_gateway.Prelude.Int64.{
  InRange, wrap, wrap_exact, saturate, sub64, min_int64, max_int64, half_range,
}
use mini_payment_gateway.Domain.Transaction.{Time}

-- Whole seconds in nanoseconds.
abbrev pub seconds : ℤ → ℤ
seconds (pos n) = pos (n * 1000000000)
seconds (negsuc n) = negsuc (n * 1000000000 + 999999999)

-- The seconds from the first year to 1970.
abbrev pub unix_to_internal : ℤ
unix_to_internal = pos 62135596800

-- `time.Unix(sec, 0)`; the seconds are counted from the first year, in an int64.
unfoldable pub unix : ℤ → Time
unfolding wrap ◌+ℤ◌ ◌-ℤ◌
unix sec = seconds (wrap (sec +ℤ unix_to_internal) -ℤ unix_to_internal)

-- `Time.Unix`: the whole seconds, rounded down.
unfoldable pub unix_seconds : Time → ℤ
unix_seconds (pos n) = pos (n / 1000000000)
unix_seconds (negsuc n) = negsuc (n / 1000000000)

-- `if drift < 0 { drift = -drift }`, on an int64.
unfoldable pub magnitude : ℤ → ℤ
unfolding sub64
magnitude d = if ltb_ℤ d (pos 0) then sub64 (pos 0) d else d

-- `drift := now.Sub(t)`, without its sign.
unfoldable pub drift : Time → Time → ℤ
unfolding saturate ◌-ℤ◌ magnitude
drift now t = magnitude (saturate (now -ℤ t))

-- A time is near another if they differ by a duration at most, or if it is so far ahead that the
-- difference is the smallest duration, whose negation is itself.
abbrev pub Near : ℤ → Time → Time → Type 0
Near tolerance now t =
    ((t -ℤ now) ≤ℤ tolerance × (now -ℤ t) ≤ℤ tolerance) ⊎ ((now -ℤ t) ≤ℤ min_int64)

-- The negation of the smallest int64 is itself.
magnitude_pos : (n : ℕ) → magnitude (pos n) ≡ pos n
unfolding magnitude
magnitude_pos n = ground arith

magnitude_negsuc : (n : ℕ) → suc n ≤ half_range - 1 → magnitude (negsuc n) ≡ pos (suc n)
unfolding magnitude sub64 wrap ◌-ℤ◌
magnitude_negsuc n h = ground arith

magnitude_least : magnitude min_int64 ≡ min_int64
unfolding magnitude sub64 wrap ◌-ℤ◌
magnitude_least = refl

-- The test of the tolerance, on the difference.
within_iff :
    (tolerance d : ℤ)
    → pos 0 ≤ℤ tolerance
    → tolerance <ℤ max_int64
    → (ltb_ℤ tolerance (magnitude (saturate d)) ≡ false)
      ↔ (((d ≤ℤ tolerance) × (pos 0 -ℤ tolerance ≤ℤ d)) ⊎ (d ≤ℤ min_int64))
unfolding saturate
within_iff tolerance (pos n) p q =
    ground (arith, magnitude_pos n, magnitude_pos (half_range - 1), -ℤ_parts (pos 0) tolerance)
within_iff tolerance (negsuc n) p q =
    ground (arith, magnitude_negsuc n, magnitude_least, -ℤ_parts (pos 0) tolerance)

pub drift_iff :
    (tolerance : ℤ) (now t : Time)
    → pos 0 ≤ℤ tolerance
    → tolerance <ℤ max_int64
    → (ltb_ℤ tolerance (drift now t) ≡ false) ↔ Near tolerance now t
unfolding drift
drift_iff tolerance now t p q =
    let same = within_iff tolerance (now -ℤ t) p q in
    ground (arith, -ℤ_parts now t, -ℤ_parts t now, -ℤ_parts (pos 0) tolerance)
