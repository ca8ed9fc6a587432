-- ===== src/Service/Reconciliation/Reports/OnDemand.antt =====
-- `SettlementReport` of internal/service/reconciliation_service.go: the summary of one merchant's day
-- when it is asked for. What the two queries give back is an argument.
use mini_payment_gateway.Prelude.{
  ℕ, Bool, ◌&&◌, List, [], ◌∷◌, Result, ok, err, ◌==◌, str_eq, if◌then◌else◌,
}
use mini_payment_gateway.Prelude.Int.{ℤ, eqb_ℤ}
use mini_payment_gateway.Domain.Errors.{Error}
use mini_payment_gateway.Domain.Transaction.{Transaction}
use mini_payment_gateway.Repository.Entries.Aggregates.{DailyTotals}
use mini_payment_gateway.Service.Reconciliation.Reports.{
  MerchantSummary, new_summary, add_transaction, add_aggregate,
}

-- The currency is that of the merchant's first transaction.
abbrev with_currency : Transaction → MerchantSummary → MerchantSummary
with_currency t m = if str_eq m.currency "" then record m { currency = t.currency } else m

-- The loop over the transactions of all merchants.
own_transactions : ℤ → ℕ → List Transaction → MerchantSummary → MerchantSummary
unfolding add_transaction
own_transactions fee_bps merchant_id [] m = m
own_transactions fee_bps merchant_id (t ∷ ts) m =
    own_transactions fee_bps merchant_id ts
      (if t.merchant_id == merchant_id then add_transaction fee_bps t (with_currency t m) else m)

-- The loop over the totals of all merchants.
own_aggregates : ℕ → List DailyTotals → MerchantSummary → MerchantSummary
unfolding add_aggregate
own_aggregates merchant_id [] m = m
own_aggregates merchant_id (a ∷ aggs) m =
    own_aggregates merchant_id aggs (if a.merchant_id == merchant_id then add_aggregate a m else m)

-- The summary's `Balanced`.
abbrev is_balanced : MerchantSummary → Bool
is_balanced m =
    eqb_ℤ m.captured_total m.ledger_captured
    && eqb_ℤ m.refunded_total m.ledger_refunded
    && eqb_ℤ m.fee_total m.ledger_fees

abbrev with_balanced : MerchantSummary → MerchantSummary × Bool
with_balanced m = (m, is_balanced m)

-- `SettlementReport`: the summary, and its `Balanced`.
unfoldable pub settlement_report :
    ℤ
    → Result Error (List Transaction)
    → Result Error (List DailyTotals)
    → ℕ
    → Result Error (MerchantSummary × Bool)
unfolding own_transactions own_aggregates
settlement_report fee_bps (err e) aggregates merchant_id = err e
settlement_report fee_bps (ok txns) (err e) merchant_id = err e
settlement_report fee_bps (ok txns) (ok aggs) merchant_id = ok (
    with_balanced (
      own_aggregates merchant_id aggs
        (own_transactions fee_bps merchant_id txns (new_summary merchant_id ""))))
