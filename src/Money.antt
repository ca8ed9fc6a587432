-- ===== src/Money.antt =====
-- internal/money/money.go: amounts in minor units, an int64, and the platform fee.
pub mod Fees
pub mod Format
mod Examples
use mini_payment_gateway.Prelude.{
  ℕ, String, Bool, true, false, Option, none, some, ◌||◌, str_eq, if◌then◌else◌, is_some,
}
use mini_payment_gateway.Prelude.Int.{ℤ, pos, ltb_ℤ, leb_ℤ}
use mini_payment_gateway.Prelude.Int64.{mul64, quot64}

-- `type Amount int64`: every value is kept in the range of an int64 by the operations.
abbrev pub Amount : Type 0
Amount = ℤ

-- `type Currency string`.
abbrev pub Currency : Type 0
Currency = String

abbrev pub vnd : Currency
vnd = "VND"

abbrev pub usd : Currency
usd = "USD"

-- The map from a currency to the number of decimal places of its minor unit.
pub minor_units : Currency → Option ℕ
minor_units c = if str_eq c vnd then some 0 else if str_eq c usd then some 2 else none

-- `Currency.Valid`.
unfoldable pub currency_valid : Currency → Bool
unfolding minor_units
currency_valid c = is_some (minor_units c)

-- `Amount.IsPositive`.
abbrev pub is_positive : Amount → Bool
is_positive a = ltb_ℤ (pos 0) a

abbrev pub bps_unit : ℕ
bps_unit = 10000

-- `Fee`, with the product wrapped to 64 bits and Go's division.
unfoldable pub fee : Amount → ℤ → Amount
unfolding mul64 quot64
fee a bps = if leb_ℤ a (pos 0) || leb_ℤ bps (pos 0) then pos 0 else quot64 (mul64 a bps) bps_unit
