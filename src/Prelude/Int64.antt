-- ===== src/Prelude/Int64.antt =====
-- Go's int64: an integer, with each operation wrapped to 64 bits in two's complement.
use Prim.Native.Nat.{ℕ, suc, ◌-◌, ◌/◌, ◌%◌, ◌≤◌, ◌<◌}
use mathlib.Core.Path.{◌≡◌, ◌∙◌}
use native.Mathlib.Omega.{arith}
use mini_payment_gateway.Prelude.Tests.{ltb, if◌then◌else◌}
use mini_payment_gateway.Prelude.Int.{
  ℤ, pos, negsuc, pos_part, neg_part, ◌+ℤ◌, ◌-ℤ◌, ◌*ℤ◌, ◌≤ℤ◌, -ℤ_parts, +ℤ_parts, parts_disjoint,
  ltb_ℤ, zero-+ℤ, eq_of_parts,
}

-- 2 ^ 63 and 2 ^ 64.
abbrev pub half_range : ℕ
half_range = 9223372036854775808

abbrev pub full_range : ℕ
full_range = 18446744073709551616

-- The 64-bit pattern of an integer, and the integer that a pattern stands for.
abbrev pub to_bits : ℤ → ℕ
to_bits (pos n) = n % full_range
to_bits (negsuc n) = full_range - 1 - n % full_range

abbrev pub of_bits : ℕ → ℤ
of_bits u = if ltb u half_range then pos u else negsuc (full_range - 1 - u)

unfoldable pub wrap : ℤ → ℤ
wrap a = of_bits (to_bits a)

abbrev pub min_int64 : ℤ
min_int64 = negsuc (half_range - 1)

abbrev pub max_int64 : ℤ
max_int64 = pos (half_range - 1)

abbrev pub InRange : ℤ → Type 0
InRange a = (pos_part a < half_range) × (neg_part a ≤ half_range)

-- A value that fits is not changed, and every value is brought into the range.
pub wrap_exact : (a : ℤ) → InRange a → wrap a ≡ a
unfolding wrap
wrap_exact a h = ground arith

pub wrap-InRange : (a : ℤ) → InRange (wrap a)
unfolding wrap
wrap-InRange a = ground arith

unfoldable pub add64 : ℤ → ℤ → ℤ
unfolding wrap ◌+ℤ◌
add64 a b = wrap (a +ℤ b)

unfoldable pub sub64 : ℤ → ℤ → ℤ
unfolding wrap ◌-ℤ◌
sub64 a b = wrap (a -ℤ b)

unfoldable pub mul64 : ℤ → ℤ → ℤ
unfolding wrap ◌*ℤ◌
mul64 a b = wrap (a *ℤ b)

-- Go's division truncates toward zero.
unfoldable pub quot64 : ℤ → ℕ → ℤ
quot64 (pos n) d = pos (n / d)
quot64 (negsuc n) d = if ltb (suc n / d) 1 then pos 0 else negsuc (suc n / d - 1)

pub add64_exact : (a b : ℤ) → InRange (a +ℤ b) → add64 a b ≡ a +ℤ b
unfolding add64
add64_exact a b h = wrap_exact (a +ℤ b) h

pub sub64_exact : (a b : ℤ) → InRange (a -ℤ b) → sub64 a b ≡ a -ℤ b
unfolding sub64
sub64_exact a b h = wrap_exact (a -ℤ b) h

-- The difference of two amounts that are not negative always fits.
pub sub64-nonneg : (a b : ℤ) → InRange a → InRange b → pos 0 ≤ℤ a → pos 0 ≤ℤ b → sub64 a b ≡ a -ℤ b
sub64-nonneg a b ha hb pa pb = sub64_exact a b (ground (arith, -ℤ_parts a b))

-- A sum that stays below a bound which fits.
pub add64-below :
    (a b c : ℤ) → pos 0 ≤ℤ a → pos 0 ≤ℤ b → b ≤ℤ c -ℤ a → InRange c → add64 a b ≡ a +ℤ b
add64-below a b c ha hb h hc =
    add64_exact a b (ground (arith, +ℤ_parts a b, -ℤ_parts c a, parts_disjoint (a +ℤ b)))

pub zero-add64 : (a : ℤ) → InRange a → add64 (pos 0) a ≡ a
zero-add64 a h = add64_exact (pos 0) a (ground (arith, zero-+ℤ a)) ∙ zero-+ℤ a

-- A part and the rest of an amount add up to the amount.
pub add64-sub64 : (a b : ℤ) → InRange a → pos 0 ≤ℤ b → b ≤ℤ a → add64 (sub64 a b) b ≡ a
add64-sub64 a b h p q =
    let back : (a -ℤ b) +ℤ b ≡ a =
      omega (arith, +ℤ_parts (a -ℤ b) b, -ℤ_parts a b, eq_of_parts ((a -ℤ b) +ℤ b) a) in
    rw (sub64-nonneg a b h (ground arith) (ground arith) p)
      (add64_exact (a -ℤ b) b (rw back h) ∙ back)

-- What `time.Time.Sub` gives back: a difference that does not fit is the largest or the smallest
-- duration.
unfoldable pub saturate : ℤ → ℤ
saturate d = if ltb_ℤ max_int64 d then max_int64 else if ltb_ℤ d min_int64 then min_int64 else d
