-- ===== src/Domain/Transaction/Validity.antt =====
-- Well-formed transactions: what remains to capture and to refund is computed without wrap-around.
use mini_payment_gateway.Prelude.{ℕ, String, List, ◌<◌, ◌≡◌, Bool, true, false, is_some, ok, arith}
use mini_payment_gateway.Prelude.Int.{pos, pos_part, ◌≤ℤ◌, ◌<ℤ◌, ◌+ℤ◌, ◌-ℤ◌}
use mini_payment_gateway.Prelude.Int64.{half_range, add64, sub64-nonneg, add64-below}
use mini_payment_gateway.Money.{Amount, Currency}
use mini_payment_gateway.Domain.Transaction.{
  Status, Transaction, Time, remaining_capturable, remaining_refundable, new_transaction,
}

-- Whether money has been captured in a status, and whether none has.
abbrev pub is_funded : Status → Bool
is_funded Status.captured = true
is_funded Status.settled = true
is_funded Status.refunded = true
is_funded _ = false

abbrev pub is_open : Status → Bool
is_open Status.captured = true
is_open Status.settled = true
is_open _ = false

-- What holds of a transaction between two calls: the amounts are ordered and fit an int64, and the
-- status says whether money was captured and whether it was returned.
pub record IsValid (t : Transaction) : Type 0 where
  pub amount_positive : pos 1 ≤ℤ t.amount
  pub amount_fits : pos_part t.amount < half_range
  pub refunded_nonneg : pos 0 ≤ℤ t.refunded_amount
  pub refunded_le : t.refunded_amount ≤ℤ t.captured_amount
  pub captured_le : t.captured_amount ≤ℤ t.amount
  pub unfunded : is_funded t.status ≡ false → t.captured_amount ≡ pos 0
  pub funded : is_funded t.status ≡ true → pos 1 ≤ℤ t.captured_amount
  pub partly_refunded : is_open t.status ≡ true → t.refunded_amount <ℤ t.captured_amount
  pub fully_refunded : t.status ≡ Status.refunded → t.refunded_amount ≡ t.captured_amount
  pub stamped : is_funded t.status ≡ true → is_some t.captured_at ≡ true

module _ {t : Transaction} (valid : IsValid t) where
  pub remaining_capturable_exact : remaining_capturable t ≡ t.amount -ℤ t.captured_amount
  unfolding remaining_capturable
  remaining_capturable_exact =
      sub64-nonneg t.amount t.captured_amount (ground arith) (ground arith) (ground arith)
        (ground arith)

  pub remaining_refundable_exact : remaining_refundable t ≡ t.captured_amount -ℤ t.refunded_amount
  unfolding remaining_refundable
  remaining_refundable_exact =
      sub64-nonneg t.captured_amount t.refunded_amount (ground arith) (ground arith) (ground arith)
        (ground arith)

  pub captured_sum :
      (a : Amount)
      → a ≤ℤ t.amount -ℤ t.captured_amount
      → pos 1 ≤ℤ a
      → add64 t.captured_amount a ≡ t.captured_amount +ℤ a
  captured_sum a h p =
      add64-below t.captured_amount a t.amount (ground arith) (ground arith) h (ground arith)

  pub refunded_sum :
      (a : Amount)
      → a ≤ℤ t.captured_amount -ℤ t.refunded_amount
      → pos 1 ≤ℤ a
      → add64 t.refunded_amount a ≡ t.refunded_amount +ℤ a
  refunded_sum a h p =
      add64-below t.refunded_amount a t.captured_amount (ground arith) (ground arith) h
        (ground arith)

-- A new transaction is well-formed, where its amount is an int64.
pub new_transaction-IsValid :
    (id merchant : ℕ) (reference : String) (amount : Amount) (currency : Currency)
    (metadata : List (String × String)) (now : Time) {t : Transaction}
    → pos_part amount < half_range
    → new_transaction id merchant reference amount currency metadata now ≡ ok t
    → IsValid t
unfolding new_transaction
new_transaction-IsValid id merchant reference amount currency metadata now fits h = ground arith

-- A new transaction has moved no money.
pub new_transaction_unfunded :
    (id merchant : ℕ) (reference : String) (amount : Amount) (currency : Currency)
    (metadata : List (String × String)) (now : Time) {t : Transaction}
    → new_transaction id merchant reference amount currency metadata now ≡ ok t
    → (t.status ≡ Status.created) × (t.captured_amount ≡ pos 0) × (t.refunded_amount ≡ pos 0)
unfolding new_transaction
new_transaction_unfunded id merchant reference amount currency metadata now h = ground arith
