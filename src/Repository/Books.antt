-- ===== src/Repository/Books.antt =====
-- The agreement of the transactions table and the journal, transaction by transaction, by the sums
-- that `AggregateByMerchant` of internal/repository/ledger_repo.go takes; and the sums over the entry
-- groups of the business events.
pub mod Groups
pub mod Postings
use mini_payment_gateway.Prelude.{
  ℕ, ◌≡◌, refl, sym, ap, ◌∙◌, Bool, true, false, ◌&&◌, Option, none, some, List, [], ◌∷◌, ◌==◌,
  if◌then◌else◌, arith,
}
use mini_payment_gateway.Prelude.Int.{ℤ, pos, ◌+ℤ◌, ◌-ℤ◌, ◌≤ℤ◌, +ℤ-zero, zero-+ℤ, int_laws}
use mini_payment_gateway.Money.{Amount}
use mini_payment_gateway.Domain.Transaction.{Time, Transaction}
use mini_payment_gateway.Domain.Transaction.Validity.{IsValid}
use mini_payment_gateway.Domain.Ledger.{
  Account, Direction, EventType, LedgerEntry, account_eq, is_debit,
}
use mini_payment_gateway.Repository.{Store}
use mini_payment_gateway.Repository.Transactions.{find_id}
use mini_payment_gateway.Repository.Entries.Appends.{sum_where, IsStable}

abbrev is_capture : EventType → Bool
is_capture EventType.capture = true
is_capture _ = false

abbrev is_refund : EventType → Bool
is_refund EventType.refund = true
is_refund _ = false

abbrev is_fee : EventType → Bool
is_fee EventType.fee = true
is_fee _ = false

abbrev pub is_credit : Direction → Bool
is_credit Direction.credit = true
is_credit _ = false

-- The three filters of `AggregateByMerchant`.
abbrev pub is_captured_leg : LedgerEntry → Bool
is_captured_leg e =
    is_capture e.event_type
    && account_eq e.account Account.acquirer_receivable
    && is_debit e.direction

abbrev pub is_refunded_leg : LedgerEntry → Bool
is_refunded_leg e =
    is_refund e.event_type
    && account_eq e.account Account.acquirer_receivable
    && is_credit e.direction

abbrev pub is_fee_leg : LedgerEntry → Bool
is_fee_leg e =
    is_fee e.event_type
    && account_eq e.account Account.platform_fee_revenue
    && is_credit e.direction

-- A filter on the lines of one transaction.
abbrev pub of_transaction : ℕ → (LedgerEntry → Bool) → LedgerEntry → Bool
of_transaction id p e = e.transaction_id == id && p e

abbrev pub captured_of : ℕ → List LedgerEntry → ℤ
captured_of id = sum_where (of_transaction id is_captured_leg)

abbrev pub refunded_of : ℕ → List LedgerEntry → ℤ
refunded_of id = sum_where (of_transaction id is_refunded_leg)

-- The two sides of a group.
abbrev pub debits_of : ℕ → List LedgerEntry → ℤ
debits_of group = sum_where (λ e. e.entry_group_id == group && is_debit e.direction)

abbrev pub credits_of : ℕ → List LedgerEntry → ℤ
credits_of group = sum_where (λ e. e.entry_group_id == group && is_credit e.direction)

-- The row of an id and the journal's lines of that id.
abbrev pub Agrees : ℕ → Option Transaction → List LedgerEntry → Type 0
Agrees id none es = (captured_of id es ≡ pos 0) × (refunded_of id es ≡ pos 0)
Agrees id (some t) es =
    IsValid t × (captured_of id es ≡ t.captured_amount) × (refunded_of id es ≡ t.refunded_amount)

-- The invariant of the store: every row is well-formed and agrees with the journal, no line belongs
-- to a transaction that is not there, and every entry group balances.
pub record IsSound (s : Store) : Type 0 where
  pub agrees : (id : ℕ) → Agrees id (find_id id s.transactions) s.entries
  pub balanced : (group : ℕ) → debits_of group s.entries ≡ credits_of group s.entries
