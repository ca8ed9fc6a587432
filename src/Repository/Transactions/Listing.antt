-- ===== src/Repository/Transactions/Listing.antt =====
-- The listings of internal/repository/transaction_repo.go: a page of a merchant's transactions, the
-- newest first, and the transactions that were captured in a time.
pub mod Order
use mini_payment_gateway.Prelude.{
  ℕ, Bool, true, false, ◌&&◌, ◌||◌, Option, none, some, List, [], ◌∷◌, ok, ltb, ◌==◌, if◌then◌else◌,
}
use mini_payment_gateway.Prelude.Int.{leb_ℤ, ltb_ℤ, eqb_ℤ}
use mini_payment_gateway.Prelude.Lists.{filter, take}
use mini_payment_gateway.Prelude.Sorting.{sort_by}
use mini_payment_gateway.Domain.Transaction.{Time, Status, Transaction, status_eq}
use mini_payment_gateway.Repository.{Statement, Faults, Query, statement}
use mini_payment_gateway.Repository.Entries.Listing.{is_null_or, page_size}

-- `ListFilter`; the cursor is the time and the id of the last row of the page before.
pub record ListFilter : Type 0 where
  pub merchant_id : ℕ
  pub status : Option Status
  pub from : Option Time
  pub to : Option Time
  pub cursor : Option (Time × ℕ)
  pub limit : ℕ

-- `(created_at, id) < ($5, $6)`, row by row.
abbrev pub row_lt : Time × ℕ → Time × ℕ → Bool
row_lt (t, i) (u, j) = ltb_ℤ t u || eqb_ℤ t u && ltb i j

abbrev pub row_key : Transaction → Time × ℕ
row_key t = (t.created_at, t.id)

-- The WHERE of `List`.
unfoldable pub lists : ListFilter → Transaction → Bool
lists f t =
    t.merchant_id == f.merchant_id
    && is_null_or f.status (λ status. status_eq t.status status)
    && is_null_or f.from (λ from. leb_ℤ from t.created_at)
    && is_null_or f.to (λ to. leb_ℤ t.created_at to)
    && is_null_or f.cursor (λ cursor. row_lt (row_key t) cursor)

-- `ORDER BY created_at DESC, id DESC`.
abbrev pub newer : Transaction → Transaction → Bool
newer t x = row_lt (row_key x) (row_key t)

unfoldable pub sort_newest : List Transaction → List Transaction
unfolding sort_by
sort_newest = sort_by newer

-- `List`.
unfoldable pub list_transactions : Faults → ListFilter → Query (List Transaction)
unfolding lists sort_newest
list_transactions faults f =
    statement faults Statement.list_transactions
      λ s. (ok (take (page_size f.limit) (sort_newest (filter (lists f) s.transactions))), s)

abbrev pub captured_in : Time → Time → Option Time → Bool
captured_in from to none = false
captured_in from to (some at) = leb_ℤ from at && ltb_ℤ at to

-- The WHERE of `ListCapturedBetween`.
abbrev pub was_captured : Time → Time → Transaction → Bool
was_captured from to t =
    captured_in from to t.captured_at
    && (status_eq t.status Status.captured
        || status_eq t.status Status.settled
        || status_eq t.status Status.refunded)

-- A missing time comes last.
abbrev opt_leb : Option Time → Option Time → Bool
opt_leb none none = true
opt_leb none (some b) = false
opt_leb (some a) none = true
opt_leb (some a) (some b) = leb_ℤ a b

-- `ORDER BY merchant_id, captured_at`.
abbrev pub merchant_leb : Transaction → Transaction → Bool
merchant_leb t x =
    ltb t.merchant_id x.merchant_id
    || t.merchant_id == x.merchant_id && opt_leb t.captured_at x.captured_at

unfoldable pub sort_by_merchant : List Transaction → List Transaction
unfolding sort_by
sort_by_merchant = sort_by merchant_leb

-- `ListCapturedBetween`.
unfoldable pub list_captured_between : Faults → Time → Time → Query (List Transaction)
unfolding sort_by_merchant
list_captured_between faults from to =
    statement faults Statement.list_transactions
      λ s. (ok (sort_by_merchant (filter (was_captured from to) s.transactions)), s)
