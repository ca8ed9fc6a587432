-- ===== src/Service/Reconciliation/Reports/OnDemandExamples.antt =====
-- The summary of one merchant on concrete days.
use mini_payment_gateway.Prelude.{Bool, true, false, ◌≡◌, refl, [], ◌∷◌, Result, ok, err}
use mini_payment_gateway.Prelude.Int.{pos}
use mini_payment_gateway.Domain.Errors.{Error}
use mini_payment_gateway.Domain.Transaction.{Transaction}
use mini_payment_gateway.Service.Payment.Examples.{captured_row}
use mini_payment_gateway.Repository.Entries.Aggregates.{DailyTotals}
use mini_payment_gateway.Service.Reconciliation.Reports.{
  MerchantSummary, compare, add_aggregates, add_transactions,
}
use mini_payment_gateway.Service.Reconciliation.Reports.OnDemand.{settlement_report}

abbrev totals : DailyTotals
totals = record {
  merchant_id = 1;
  currency = "USD";
  captured = pos 600;
  refunded = pos 0;
  fees = pos 15;
}

-- Another capture of the same merchant, in dong, with its totals.
abbrev dong_row : Transaction
dong_row = record captured_row { currency = "VND" }

abbrev dong_totals : DailyTotals
dong_totals = record totals { currency = "VND" }

abbrev balanced : Result Error (MerchantSummary × Bool) → Bool
balanced (err e) = false
balanced (ok (m, b)) = b

one_currency :
    balanced (settlement_report (pos 250) (ok (captured_row ∷ [])) (ok (totals ∷ [])) 1) ≡ true
unfolding settlement_report
one_currency = refl

-- With two currencies the nightly report has no discrepancy, and the summary is not balanced.
two_currencies :
    (compare (
        add_aggregates
          (totals ∷ dong_totals ∷ [])
          (add_transactions (pos 250) (captured_row ∷ dong_row ∷ []) []))
      ≡ [])
    × (balanced (
          settlement_report
            (pos 250)
            (ok (captured_row ∷ dong_row ∷ []))
            (ok (totals ∷ dong_totals ∷ []))
            1)
        ≡ false)
unfolding settlement_report compare add_aggregates add_transactions
two_currencies = (refl, refl)

query_failed : settlement_report (pos 250) (ok []) (err Error.internal) 1 ≡ err Error.internal
unfolding settlement_report
query_failed = refl
