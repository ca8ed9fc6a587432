-- ===== src/Money/Format.antt =====
-- internal/money/money.go: the print of an amount in major units, for reports.
mod Examples
use mini_payment_gateway.Prelude.{
  ℕ, zero, suc, ◌*◌, ◌-◌, Option, none, some, List, [], ◌∷◌, ◌++◌, if◌then◌else◌,
}
use mini_payment_gateway.Prelude.Int.{ℤ, pos, negsuc, ltb_ℤ}
use mini_payment_gateway.Prelude.Int64.{mul64, quot64, sub64}
use mini_payment_gateway.Prelude.Lists.{length}
use mini_payment_gateway.Money.{Amount, Currency, minor_units}
use mini_payment_gateway.Text.{Bytes, codes}
use mini_payment_gateway.Text.Decimal.{format_ℕ, format_int}

-- The loop that raises `div` to the power of ten; no currency has more than two places, so that
-- nothing wraps.
abbrev raise : ℕ → ℕ → ℕ
raise zero div = div
raise (suc i) div = raise i (div * 10)

-- The verb `%0*d`: zeros between the sign and the digits, up to the width.
abbrev zeros : ℕ → Bytes
zeros zero = []
zeros (suc n) = 48 ∷ zeros n

padded : ℕ → ℤ → Bytes
unfolding format_ℕ
padded width (pos n) = zeros (width - length (format_ℕ n)) ++ format_ℕ n
padded width (negsuc n) = 45 ∷ (zeros (width - suc (length (format_ℕ (suc n)))) ++ format_ℕ (suc n))

-- The major units, a point, the minor units and the currency; the rest of Go's division has the sign
-- of `v`.
major_units : ℕ → ℕ → Bytes → ℤ → Currency → Bytes
unfolding padded format_int mul64 quot64 sub64
major_units exp div neg v c =
    neg
    ++ (format_int (quot64 v div)
        ++ (codes "."
            ++ (padded exp (sub64 v (mul64 (quot64 v div) (pos div))) ++ (codes " " ++ codes c))))

abbrev whole : Amount → Currency → Bytes
unfolding format_int
whole a c = format_int a ++ (codes " " ++ codes c)

abbrev format_with : Option ℕ → Amount → Currency → Bytes
unfolding major_units format_int sub64
format_with none a c = whole a c
format_with (some zero) a c = whole a c
format_with (some (suc n)) a c =
    if ltb_ℤ a (pos 0)
    then major_units (suc n) (raise (suc n) 1) (codes "-") (sub64 (pos 0) a) c
    else major_units (suc n) (raise (suc n) 1) [] a c

-- `Format`.
pub format : Amount → Currency → Bytes
unfolding minor_units format_with
format a c = format_with (minor_units c) a c
