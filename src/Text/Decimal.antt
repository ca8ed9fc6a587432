-- ===== src/Text/Decimal.antt =====
-- strconv.ParseInt and strconv.Atoi in base 10 with 64 bits, and strconv.FormatInt.
use mini_payment_gateway.Prelude.{
  ℕ, zero, suc, ◌+◌, ◌-◌, ◌*◌, ◌/◌, ◌%◌, ◌≤◌, ◌<◌, ◌≡◌, ◌≢◌, refl, ◌&&◌, Option, none, some, [],
  ◌∷◌, ltb, leb, ◌==◌, if◌then◌else◌, arith,
}
use Prim.Native.Nat.{compare, Ordering}
use mini_payment_gateway.Prelude.Int.{ℤ, pos, negsuc}
use mini_payment_gateway.Prelude.Int64.{half_range, InRange}
use mini_payment_gateway.Prelude.Lists.{All}
use mathlib.Core.List.{cons-ne-nil}
use mini_payment_gateway.Text.{Bytes, IsPlain}

-- The number that digits spell after `n`; any other byte is a syntax error.
unfoldable pub scan : Bytes → ℕ → Option ℕ
scan [] n = some n
scan (c ∷ s) n =
    let rest = scan s (n * 10 + (c - 48)) in if leb 48 c && leb c 57 then rest else none

-- A sequence of at least one digit.
unfoldable pub parse_digits : Bytes → Option ℕ
unfolding scan
parse_digits [] = none
parse_digits (c ∷ s) = scan (c ∷ s) 0

abbrev pub in_positive_range : Option ℕ → Option ℤ
in_positive_range none = none
in_positive_range (some n) = if ltb n half_range then some (pos n) else none

abbrev pub negated : ℕ → ℤ
negated zero = pos 0
negated (suc n) = negsuc n

abbrev pub in_negative_range : Option ℕ → Option ℤ
in_negative_range none = none
in_negative_range (some n) = if leb n half_range then some (negated n) else none

-- `ParseInt`: a sign, then digits; a value that does not fit is an error as well.
unfoldable pub parse_int : Bytes → Option ℤ
unfolding parse_digits
parse_int [] = none
parse_int (c ∷ s) =
    if c == 45
    then in_negative_range (parse_digits s)
    else if c == 43
    then in_positive_range (parse_digits s)
    else in_positive_range (parse_digits (c ∷ s))

-- The digits of `n` before `out`. Each round divides `n` by ten, so `n` rounds are enough.
digits : ℕ → ℕ → Bytes → Bytes
digits zero n out = out
digits (suc k) n out = elim (compare 0 n) [
  | Ordering.lt ↦ digits k (n / 10) ((48 + n % 10) ∷ out)
  | _ ↦ out
]

unfoldable pub format_ℕ : ℕ → Bytes
unfolding digits
format_ℕ n = if n == 0 then 48 ∷ [] else digits n n []

-- `FormatInt`.
unfoldable pub format_int : ℤ → Bytes
unfolding format_ℕ
format_int (pos n) = format_ℕ n
format_int (negsuc n) = 45 ∷ format_ℕ (suc n)

-- Reading the last digit of a number after the digits before it gives the number.
scan_last : (n : ℕ) (out : Bytes) → scan ((48 + n % 10) ∷ out) (n / 10) ≡ scan out n
unfolding scan
scan_last n out = ground arith

scan-digits : (k n : ℕ) (out : Bytes) → n ≤ k → scan (digits k n out) 0 ≡ scan out n
unfolding digits
scan-digits zero n out h = ground arith
scan-digits (suc k) n out h =
    grind (arith, scan-digits k (n / 10) ((48 + n % 10) ∷ out), scan_last n out)

abbrev IsDigit : ℕ → Type 0
IsDigit c = (48 ≤ c) × (c ≤ 57)

digits-All : (k n : ℕ) (out : Bytes) → All IsDigit out → All IsDigit (digits k n out)
unfolding digits
digits-All zero n out h = h
digits-All (suc k) n out h = ground (arith, digits-All k (n / 10) ((48 + n % 10) ∷ out))

digits-ne-nil : (k n : ℕ) (out : Bytes) → out ≢ [] → digits k n out ≢ []
unfolding digits
digits-ne-nil zero n out h = h
digits-ne-nil (suc k) n out h =
    ground (arith, digits-ne-nil k (n / 10) ((48 + n % 10) ∷ out), cons-ne-nil (48 + n % 10) out)

positive-ne-nil : (n : ℕ) → 0 < n → digits n n [] ≢ []
unfolding digits
positive-ne-nil zero h = absurd (omega arith)
positive-ne-nil (suc k) h = ground (
  arith,
  digits-ne-nil k (suc k / 10) ((48 + suc k % 10) ∷ []) (cons-ne-nil (48 + suc k % 10) []),
)

parse_digits-scan : (s : Bytes) → s ≢ [] → parse_digits s ≡ scan s 0
unfolding parse_digits
parse_digits-scan [] h = absurd (h refl)
parse_digits-scan (c ∷ s) h = refl

parse_digits-format_ℕ : (n : ℕ) → parse_digits (format_ℕ n) ≡ some n
unfolding format_ℕ scan parse_digits
parse_digits-format_ℕ zero = refl
parse_digits-format_ℕ (suc n) = ground (
  arith,
  parse_digits-scan (digits (suc n) (suc n) []),
  positive-ne-nil (suc n),
  scan-digits (suc n) (suc n) [],
)

format_ℕ-All : (n : ℕ) → All IsDigit (format_ℕ n)
unfolding format_ℕ
format_ℕ-All zero = ((omega arith, omega arith), tt)
format_ℕ-All (suc n) = ground (arith, digits-All (suc n) (suc n) [] tt)

-- A text that starts with a digit has no sign.
parse_int-digits : (s : Bytes) → All IsDigit s → parse_int s ≡ in_positive_range (parse_digits s)
unfolding parse_int
parse_int-digits [] h = refl
parse_int-digits (c ∷ s) h = ground arith

-- An int64 is read back from its decimal print.
pub parse_int-format_int : (a : ℤ) → InRange a → parse_int (format_int a) ≡ some a
unfolding format_int parse_int
parse_int-format_int (pos n) h =
    rw (parse_int-digits (format_ℕ n) (format_ℕ-All n), parse_digits-format_ℕ n) (ground arith)
parse_int-format_int (negsuc n) h = rw (parse_digits-format_ℕ (suc n)) (ground arith)

digit-IsPlain : (s : Bytes) → All IsDigit s → All IsPlain s
digit-IsPlain [] h = tt
digit-IsPlain (c ∷ s) h = (ground arith, digit-IsPlain s h.1)

pub format_int-All : (a : ℤ) → All IsPlain (format_int a)
unfolding format_int
format_int-All (pos n) = digit-IsPlain (format_ℕ n) (format_ℕ-All n)
format_int-All (negsuc n) = (ground arith, digit-IsPlain (format_ℕ (suc n)) (format_ℕ-All (suc n)))

format_ℕ-ne-nil : (n : ℕ) → format_ℕ n ≢ []
unfolding format_ℕ
format_ℕ-ne-nil zero = cons-ne-nil 48 []
format_ℕ-ne-nil (suc n) = ground (arith, positive-ne-nil (suc n))

pub format_int-ne-nil : (a : ℤ) → format_int a ≢ []
unfolding format_int
format_int-ne-nil (pos n) = format_ℕ-ne-nil n
format_int-ne-nil (negsuc n) = cons-ne-nil 45 (format_ℕ (suc n))

pub parse_int_nil : parse_int [] ≡ none
unfolding parse_int
parse_int_nil = refl
