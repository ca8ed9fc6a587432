-- ===== src/Repository/Transactions.antt =====
-- internal/repository/transaction_repo.go, with the constraints of migrations/00002.
pub mod Rows
pub mod Locking
pub mod Listing
mod Examples
use mini_payment_gateway.Prelude.{
  ℕ, suc, String, Bool, not, ◌&&◌, Option, none, some, List, [], ◌∷◌, map, ◌++◌, ok, err, ◌==◌,
  str_eq, is_some, if◌then◌else◌,
}
use mini_payment_gateway.Prelude.Int.{pos, leb_ℤ, ltb_ℤ}
use mini_payment_gateway.Prelude.Lists.{find}
use mini_payment_gateway.Domain.Errors.{Error}
use mini_payment_gateway.Domain.Transaction.{Time, Status, Transaction, status_eq}
use mini_payment_gateway.Repository.{Statement, Faults, Query, statement}

abbrev pub has_id : ℕ → Transaction → Bool
has_id id t = t.id == id

abbrev pub find_id : ℕ → List Transaction → Option Transaction
find_id id = find (has_id id)

abbrev pub has_reference : ℕ → String → Transaction → Bool
has_reference merchant_id reference t = t.merchant_id == merchant_id && str_eq t.reference reference

-- The CHECK constraints of the table.
abbrev pub row_allowed : Transaction → Bool
row_allowed t =
    ltb_ℤ (pos 0) t.amount
    && (leb_ℤ (pos 0) t.captured_amount && leb_ℤ t.captured_amount t.amount)
    && (leb_ℤ (pos 0) t.refunded_amount && leb_ℤ t.refunded_amount t.captured_amount)
    && not (status_eq t.status Status.other)

-- The columns that the INSERT names; the others start as NULL.
abbrev pub inserted : Transaction → Transaction
inserted t = record t {
  card_last4 = "";
  card_brand = "";
  acquirer_ref = "";
  failure_code = "";
  authorized_at = none;
  captured_at = none;
  settled_at = none;
}

-- `Create`: the CHECK constraints, the primary key, and the unique key of merchant and reference.
unfoldable pub create : Faults → Transaction → Query (Unit {0})
create faults t = statement faults Statement.insert_transaction λ s.
    if not (row_allowed t)
    then (err Error.validation, s)
    else if is_some (find_id t.id s.transactions)
    then (err Error.internal, s)
    else if is_some (find (has_reference t.merchant_id t.reference) s.transactions)
    then (err Error.duplicate_reference, s)
    else (ok tt, record s { transactions = s.transactions ++ inserted t ∷ [] })

-- `scanTransaction` of the row that a query found.
abbrev scan_row : Option Transaction → Query Transaction
scan_row none s = (err Error.not_found, s)
scan_row (some t) s = (ok t, s)

-- `GetForUpdate` and `GetByID`.
unfoldable pub get_for_update : Faults → ℕ → Query Transaction
get_for_update faults id =
    statement faults Statement.select_transaction λ s. scan_row (find_id id s.transactions) s

-- `GetByMerchantAndID`.
unfoldable pub get_by_merchant_and_id : Faults → ℕ → ℕ → Query Transaction
get_by_merchant_and_id faults merchant_id id =
    statement faults Statement.select_transaction
      λ s. scan_row (find (λ t. t.id == id && t.merchant_id == merchant_id) s.transactions) s

-- `GetByReference`.
unfoldable pub get_by_reference : Faults → ℕ → String → Query Transaction
get_by_reference faults merchant_id reference =
    statement faults Statement.select_transaction
      λ s. scan_row (find (has_reference merchant_id reference) s.transactions) s

-- The columns that the UPDATE sets, from the transaction in memory.
abbrev pub written : Transaction → Time → Transaction → Transaction
written t now row = record row {
  status = t.status;
  captured_amount = t.captured_amount;
  refunded_amount = t.refunded_amount;
  card_last4 = t.card_last4;
  card_brand = t.card_brand;
  acquirer_ref = t.acquirer_ref;
  failure_code = t.failure_code;
  authorized_at = t.authorized_at;
  captured_at = t.captured_at;
  settled_at = t.settled_at;
  version = suc row.version;
  updated_at = now;
}

abbrev pub is_version_of : Transaction → Transaction → Bool
is_version_of t row = row.id == t.id && row.version == t.version

abbrev pub write_row : Transaction → Time → Transaction → Transaction
write_row t now row = if is_version_of t row then written t now row else row

abbrev pub write_rows : Transaction → Time → List Transaction → List Transaction
write_rows t now = map (write_row t now)

-- `Update`: no row with the id and the version is a concurrent modification; a row that breaks a
-- CHECK constraint is a validation error. The version and the time come back into the transaction.
unfoldable pub update : Faults → Transaction → Time → Query Transaction
update faults t now = statement faults Statement.update_transaction λ s.
    elim (find (is_version_of t) s.transactions) [
      | none ↦ (err Error.concurrent_modification, s)
      | some row ↦ if not (row_allowed (written t now row)) then (err Error.validation, s) else (
        ok (record t { version = suc row.version; updated_at = now }),
        record s { transactions = write_rows t now s.transactions },
      )
    ]
