-- ===== src/Repository/Entries/Listing.antt =====
-- `ListEntries` of internal/repository/ledger_repo.go: one page of a merchant's lines, the newest
-- first.
pub mod Order
use mini_payment_gateway.Prelude.{
  ℕ, zero, suc, Bool, true, false, not, ◌&&◌, ◌||◌, Option, none, some, List, [], ◌∷◌, ◌++◌, Result,
  ok, err, ltb, leb, ◌==◌, if◌then◌else◌,
}
use mini_payment_gateway.Prelude.Int.{ℤ, pos, ltb_ℤ, leb_ℤ}
use mini_payment_gateway.Prelude.Lists.{filter, take}
use mini_payment_gateway.Prelude.Sorting.{sort_by}
use mini_payment_gateway.Domain.Errors.{Error}
use mini_payment_gateway.Domain.Transaction.{Time}
use mini_payment_gateway.Domain.Ledger.{Account, LedgerEntry}
use mini_payment_gateway.Repository.{Store}
use mini_payment_gateway.Text.{Bytes, codes, bytes_eq, is_empty}

-- The text of an account, with the text of an id.
pub account_text : (ℕ → Bytes) → Account → Bytes
account_text uuid_text Account.acquirer_receivable = codes "acquirer_receivable"
account_text uuid_text Account.platform_fee_revenue = codes "platform_fee_revenue"
account_text uuid_text Account.platform_cash = codes "platform_cash"
account_text uuid_text (Account.merchant_payable m) = codes "merchant_payable:" ++ uuid_text m

pub record EntryFilter : Type 0 where
  pub merchant_id : ℕ
  pub account : Bytes
  pub from : Option Time
  pub to : Option Time
  pub cursor_id : Option ℤ
  pub limit : ℕ

-- `($n IS NULL OR …)`.
abbrev pub is_null_or : {A : Type 0} → Option A → (A → Bool) → Bool
is_null_or none p = true
is_null_or (some a) p = p a

abbrev pub belongs_to : ℕ → Option ℕ → Bool
belongs_to merchant_id none = false
belongs_to merchant_id (some m) = m == merchant_id

-- The conditions of the query but the cursor's.
unfoldable pub selects : (ℕ → Bytes) → EntryFilter → LedgerEntry → Bool
unfolding account_text
selects uuid_text f e =
    belongs_to f.merchant_id e.merchant_id
    && (is_empty f.account || bytes_eq (account_text uuid_text e.account) f.account)
    && is_null_or f.from (λ t. leb_ℤ t e.created_at)
    && is_null_or f.to (λ t. leb_ℤ e.created_at t)

unfoldable pub before_cursor : Option ℤ → LedgerEntry → Bool
before_cursor cursor e = is_null_or cursor (λ c. ltb_ℤ (pos e.id) c)

-- `ORDER BY id DESC`.
abbrev pub newer : LedgerEntry → LedgerEntry → Bool
newer e x = ltb x.id e.id

unfoldable pub sort_desc : List LedgerEntry → List LedgerEntry
unfolding sort_by
sort_desc = sort_by newer

-- The page size that the query is given.
abbrev pub page_size : ℕ → ℕ
page_size n = if leb n 0 then 50 else if ltb 201 n then 201 else n

unfoldable pub list_entries :
    Option Error → (ℕ → Bytes) → EntryFilter → Store → Result Error (List LedgerEntry)
unfolding selects before_cursor sort_desc
list_entries (some e) uuid_text f s = err e
list_entries none uuid_text f s = ok (
    take (page_size f.limit)
      (sort_desc (filter (λ e. selects uuid_text f e && before_cursor f.cursor_id e) s.entries)))
