-- ===== src/Acquirer/Mock.antt =====
-- internal/acquirer/mock.go: the simulated card processor. What it draws at random, and whether the
-- request's context ends before the processing time is over, are arguments.
pub mod Luhn
mod Examples
use mini_payment_gateway.Prelude.{
  ℕ, ◌+◌, ◌-◌, ◌*◌, ◌%◌, String, Bool, true, false, not, ◌&&◌, ◌||◌, List, [], ◌∷◌, ◌++◌, Result,
  ok, err, ltb, leb, ◌==◌, if◌then◌else◌,
}
use mini_payment_gateway.Prelude.Int.{ℤ, pos, ltb_ℤ}
use mini_payment_gateway.Prelude.Lists.{length, filter, drop}
use mini_payment_gateway.Money.{Amount, is_positive}
use mini_payment_gateway.Domain.Errors.{Error, DeclineCode}
use mini_payment_gateway.Text.{Bytes, codes, bytes_eq, is_empty, has_prefix}

pub record Card : Type 0 where
  pub number : Bytes
  pub exp_month : ℤ
  pub exp_year : ℤ
  pub cvv : Bytes

-- The outcome of the roll against the two rates, with the code that is drawn for a decline.
pub data Roll : Type 0 where
  times_out passes : Roll
  declines : DeclineCode → Roll

-- What one call draws: the roll, whether the context ends during the delay, and the twenty characters
-- of the reference.
pub record MockDraws : Type 0 where
  pub roll : Roll
  pub cancelled : Bool
  pub reference : Bytes

abbrev pub is_digit : ℕ → Bool
is_digit c = leb 48 c && leb c 57

-- What a digit adds to the sum of `luhn`.
abbrev doubled : ℕ → ℕ
doubled n = if ltb 9 n then n - 9 else n

abbrev pub luhn_weight : Bool → ℕ → ℕ
luhn_weight alt c = if alt then doubled ((c - 48) * 2) else c - 48

-- The loop of `luhn`, which goes from the last digit to the first.
unfoldable pub luhn_loop : Bytes → ℕ × Bool
luhn_loop [] = (0, false)
luhn_loop (c ∷ s) = let (sum, alt) = luhn_loop s in (sum + luhn_weight alt c, not alt)

unfoldable pub luhn : Bytes → Bool
unfolding luhn_loop
luhn s = (luhn_loop s).0 % 10 == 0

-- `last4`.
unfoldable pub last4 : Bytes → Bytes
last4 pan = if ltb (length pan) 4 then pan else drop (length pan - 4) pan

-- `brandOf`.
unfoldable pub brand_of : Bytes → Bytes
brand_of pan =
    if has_prefix pan (codes "4")
    then codes "visa"
    else if has_prefix pan (codes "5") || has_prefix pan (codes "2")
    then codes "mastercard"
    else if has_prefix pan (codes "34") || has_prefix pan (codes "37")
    then codes "amex"
    else codes "unknown"

-- `validateCard`.
unfoldable pub validate_card : Card → Result Error (Unit {0})
unfolding luhn
validate_card c =
    let digits = filter is_digit c.number in
    if ltb (length digits) 12 || ltb 19 (length digits) || not (bytes_eq digits c.number)
    then err (Error.invalid "card.number" "must be 12 to 19 digits")
    else if not (luhn digits)
    then err (Error.invalid "card.number" "failed checksum")
    else if ltb_ℤ c.exp_month (pos 1) || ltb_ℤ (pos 12) c.exp_month
    then err (Error.invalid "card.exp_month" "must be between 1 and 12")
    else if ltb_ℤ c.exp_year (pos 2000) || ltb_ℤ (pos 2100) c.exp_year
    then err (Error.invalid "card.exp_year" "must be a four digit year")
    else if ltb (length c.cvv) 3 || ltb 4 (length c.cvv)
    then err (Error.invalid "card.cvv" "must be 3 or 4 digits")
    else ok tt

-- `delay`, and `hang`, which returns when the context ends.
abbrev delay : MockDraws → Result Error (Unit {0})
delay d = if d.cancelled then err Error.acquirer_unavailable else ok tt

abbrev hang : Result Error (Unit {0})
hang = err Error.acquirer_unavailable

-- A decline comes after the delay.
abbrev declined_after : Result Error (Unit {0}) → DeclineCode → Result Error (Unit {0})
declined_after (err e) code = err e
declined_after (ok u) code = err (Error.declined code)

-- `simulate`: the test cards first, then the roll.
pub simulate : MockDraws → Bytes → Result Error (Unit {0})
simulate d card_last4 =
    if bytes_eq card_last4 (codes "0000")
    then declined_after (delay d) DeclineCode.do_not_honor
    else if bytes_eq card_last4 (codes "0002")
    then hang
    else elim d.roll [
      | Roll.times_out ↦ hang
      | Roll.declines code ↦ declined_after (delay d) code
      | Roll.passes ↦ delay d
    ]

-- `newRef`.
abbrev new_ref : MockDraws → String → Bytes
new_ref d kind = codes kind ++ (codes "_" ++ d.reference)

pub record MockAuthorized : Type 0 where
  pub ref : Bytes
  pub card_last4 : Bytes
  pub card_brand : Bytes

abbrev with_simulated : MockDraws → Card → Result Error (Unit {0}) → Result Error MockAuthorized
with_simulated d c (err e) = err e
with_simulated d c (ok u) =
    ok (record {
      ref = new_ref d "auth";
      card_last4 = last4 c.number;
      card_brand = brand_of c.number;
    })

abbrev after_card :
    MockDraws → Card → Amount → Result Error (Unit {0}) → Result Error MockAuthorized
after_card d c amount (err e) = err e
after_card d c amount (ok u) =
    if not (is_positive amount)
    then err Error.invalid_amount
    else with_simulated d c (simulate d (last4 c.number))

-- `Mock.Authorize`.
unfoldable pub mock_authorize : MockDraws → Card → Amount → Result Error MockAuthorized
unfolding validate_card simulate last4 brand_of
mock_authorize d c amount = after_card d c amount (validate_card c)

abbrev with_ref : MockDraws → String → Result Error (Unit {0}) → Result Error Bytes
with_ref d kind (err e) = err e
with_ref d kind (ok u) = ok (new_ref d kind)

-- The body that `Mock.Capture` and `Mock.Refund` share.
abbrev move_money : MockDraws → String → Bytes → Amount → Result Error Bytes
move_money d kind ref amount =
    if is_empty ref
    then err Error.validation
    else if not (is_positive amount)
    then err Error.invalid_amount
    else with_ref d kind (delay d)

-- `Mock.Capture`, `Mock.Refund` and `Mock.Void`.
pub mock_capture : MockDraws → Bytes → Amount → Result Error Bytes
mock_capture d = move_money d "cap"

pub mock_refund : MockDraws → Bytes → Amount → Result Error Bytes
mock_refund d = move_money d "ref"

pub mock_void : MockDraws → Bytes → Result Error Bytes
mock_void d ref = if is_empty ref then err Error.validation else with_ref d "void" (delay d)
