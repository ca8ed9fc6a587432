-- ===== src/Repository/Entries/Aggregates.antt =====
-- `AggregateByMerchant` of internal/repository/ledger_repo.go: the journal's totals of a day, for each
-- merchant and currency.
pub mod Groups
pub mod Rows
pub mod Totals
use mini_payment_gateway.Prelude.{
  ℕ, Bool, true, false, not, ◌&&◌, ◌||◌, Option, none, some, List, [], ◌∷◌, map, Result, ok, err,
  leb, ◌==◌, str_eq, if◌then◌else◌, is_some,
}
use mini_payment_gateway.Prelude.Lists.{filter, find}
use mini_payment_gateway.Prelude.Sorting.{sort_by}
use mini_payment_gateway.Money.{Amount, Currency}
use mini_payment_gateway.Domain.Errors.{Error}
use mini_payment_gateway.Domain.Transaction.{Time, Transaction}
use mini_payment_gateway.Domain.Ledger.{LedgerEntry}
use mini_payment_gateway.Repository.{Store}
use mini_payment_gateway.Repository.Books.{is_captured_leg, is_refunded_leg, is_fee_leg}
use mini_payment_gateway.Repository.Entries.Appends.{sum_where}
use mini_payment_gateway.Repository.Entries.Listing.{belongs_to}
use mini_payment_gateway.Repository.Entries.Queries.{fits}
use mini_payment_gateway.Repository.Transactions.{find_id}
use mini_payment_gateway.Repository.Transactions.Listing.{captured_in}

-- `DailyTotals`.
pub record DailyTotals : Type 0 where
  pub merchant_id : ℕ
  pub currency : Currency
  pub captured : Amount
  pub refunded : Amount
  pub fees : Amount

abbrev pub in_time : Time → Time → Option Transaction → Bool
in_time from to none = false
in_time from to (some t) = captured_in from to t.captured_at

-- The JOIN, which gives a line one row at most, and the WHERE on the row.
abbrev pub in_window : Time → Time → List Transaction → LedgerEntry → Bool
in_window from to ts e = in_time from to (find_id e.transaction_id ts)

-- `GROUP BY e.merchant_id, e.currency`, where the merchant is not null.
abbrev pub GroupKey : Type 0
GroupKey = ℕ × Currency

abbrev pub in_group : GroupKey → LedgerEntry → Bool
in_group key e = belongs_to key.0 e.merchant_id && str_eq e.currency key.1

abbrev pub same_key : GroupKey → GroupKey → Bool
same_key j k = j.0 == k.0 && str_eq j.1 k.1

abbrev pub has_group : GroupKey → List GroupKey → Bool
has_group k keys = is_some (find (λ j. same_key j k) keys)

abbrev pub with_group : Option ℕ → Currency → List GroupKey → List GroupKey
with_group none currency keys = keys
with_group (some merchant_id) currency keys =
    if has_group (merchant_id, currency) keys then keys else (merchant_id, currency) ∷ keys

unfoldable pub group_keys : List LedgerEntry → List GroupKey
group_keys [] = []
group_keys (e ∷ es) = with_group e.merchant_id e.currency (group_keys es)

-- `ORDER BY e.merchant_id`.
abbrev pub key_leb : GroupKey → GroupKey → Bool
key_leb k l = leb k.0 l.0

-- The row of a group of the lines of the day.
abbrev pub totals_of : List LedgerEntry → GroupKey → DailyTotals
totals_of es key = record {
  merchant_id = key.0;
  currency = key.1;
  captured = sum_where (λ e. in_group key e && is_captured_leg e) es;
  refunded = sum_where (λ e. in_group key e && is_refunded_leg e) es;
  fees = sum_where (λ e. in_group key e && is_fee_leg e) es;
}

-- Whether each row can be scan_totals.
abbrev pub all_fit : List DailyTotals → Bool
all_fit [] = true
all_fit (d ∷ ds) = fits d.captured && fits d.refunded && fits d.fees && all_fit ds

abbrev pub scan_totals : List DailyTotals → Result Error (List DailyTotals)
scan_totals ds = if all_fit ds then ok ds else err Error.internal

-- `AggregateByMerchant`.
unfoldable pub aggregate_by_merchant :
    Option Error → Time → Time → Store → Result Error (List DailyTotals)
unfolding group_keys sort_by sum_where
aggregate_by_merchant (some e) from to s = err e
aggregate_by_merchant none from to s =
    let lines = filter (in_window from to s.transactions) s.entries in
    scan_totals (map (totals_of lines) (sort_by key_leb (group_keys lines)))

-- Whether a group is reported.
abbrev pub has_total : GroupKey → List DailyTotals → Bool
has_total k [] = false
has_total k (a ∷ aggs) = same_key (a.merchant_id, a.currency) k || has_total k aggs
