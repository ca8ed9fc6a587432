-- ===== src/Service/Reconciliation/Reports.antt =====
-- `Run` of internal/service/reconciliation_service.go: the two sides of the comparison, the
-- discrepancies, and the decision to settle. The lists that the three queries give back, and whether
-- the files are written, are arguments.
pub mod Runs
pub mod Summaries
pub mod Sides
pub mod Expected
pub mod Journal
pub mod Day
pub mod Comparison
pub mod OnDemand
mod OnDemandExamples
use mini_payment_gateway.Prelude.{
  ℕ, suc, Bool, true, false, not, ◌&&◌, List, [], ◌∷◌, ◌++◌, map, Result, ◌>>=◌, ◌>>◌, pure,
  from_result, ◌==◌, str_eq, if◌then◌else◌,
}
use mini_payment_gateway.Prelude.Int.{ℤ, pos, eqb_ℤ}
use mini_payment_gateway.Prelude.Int64.{add64, sub64}
use mini_payment_gateway.Money.{Amount, Currency, fee}
use mini_payment_gateway.Domain.Errors.{Error}
use mini_payment_gateway.Domain.Transaction.{Transaction}
use mini_payment_gateway.Repository.{Query}
use mini_payment_gateway.Repository.Entries.Aggregates.{DailyTotals}
use mini_payment_gateway.Service.Payment.{Env, Others}
use mini_payment_gateway.Service.Reconciliation.{Round, settle}

pub record MerchantSummary : Type 0 where
  pub merchant_id : ℕ
  pub currency : Currency
  pub transaction_count : ℕ
  pub captured_total : Amount
  pub refunded_total : Amount
  pub fee_total : Amount
  pub net_payout : Amount
  pub ledger_captured : Amount
  pub ledger_refunded : Amount
  pub ledger_fees : Amount

abbrev pub has_key : ℕ → Currency → MerchantSummary → Bool
has_key merchant_id currency m = m.merchant_id == merchant_id && str_eq m.currency currency

abbrev pub new_summary : ℕ → Currency → MerchantSummary
new_summary merchant_id currency = record {
  merchant_id = merchant_id;
  currency = currency;
  transaction_count = 0;
  captured_total = pos 0;
  refunded_total = pos 0;
  fee_total = pos 0;
  net_payout = pos 0;
  ledger_captured = pos 0;
  ledger_refunded = pos 0;
  ledger_fees = pos 0;
}

-- The entry of the map `expected` at a key, made where it is missing, and changed.
pub change_at :
    ℕ → Currency → (MerchantSummary → MerchantSummary) → List MerchantSummary → List MerchantSummary
change_at merchant_id currency f [] = f (new_summary merchant_id currency) ∷ []
change_at merchant_id currency f (m ∷ ms) =
    if has_key merchant_id currency m then f m ∷ ms else m ∷ change_at merchant_id currency f ms

-- The body of the loop over the transactions.
pub add_transaction : ℤ → Transaction → MerchantSummary → MerchantSummary
unfolding add64 sub64 fee
add_transaction fee_bps t m = record m {
  transaction_count = suc m.transaction_count;
  captured_total = add64 m.captured_total t.captured_amount;
  refunded_total = add64 m.refunded_total t.refunded_amount;
  fee_total = add64 m.fee_total (fee t.captured_amount fee_bps);
  net_payout =
      add64 m.net_payout
        (sub64 (sub64 t.captured_amount (fee t.captured_amount fee_bps)) t.refunded_amount);
}

pub add_transactions : ℤ → List Transaction → List MerchantSummary → List MerchantSummary
unfolding change_at add_transaction
add_transactions fee_bps [] ms = ms
add_transactions fee_bps (t ∷ ts) ms =
    add_transactions fee_bps ts (change_at t.merchant_id t.currency (add_transaction fee_bps t) ms)

-- The body of the loop over the aggregates.
pub add_aggregate : DailyTotals → MerchantSummary → MerchantSummary
add_aggregate a m = record m {
  ledger_captured = a.captured;
  ledger_refunded = a.refunded;
  ledger_fees = a.fees;
}

pub add_aggregates : List DailyTotals → List MerchantSummary → List MerchantSummary
unfolding change_at add_aggregate
add_aggregates [] ms = ms
add_aggregates (a ∷ aggs) ms =
    add_aggregates aggs (change_at a.merchant_id a.currency (add_aggregate a) ms)

pub data Field : Type 0 where
  captured_total refunded_total fee_total : Field

pub record Discrepancy : Type 0 where
  pub merchant_id : ℕ
  pub field : Field
  pub expected : Amount
  pub actual : Amount

-- One check of a summary.
abbrev pub check : ℕ → Field → Amount → Amount → List Discrepancy
check merchant_id field expected actual =
    if not (eqb_ℤ expected actual)
    then record { merchant_id = merchant_id; field = field; expected = expected; actual = actual }
      ∷ []
    else []

abbrev pub checks : MerchantSummary → List Discrepancy
checks m =
    check m.merchant_id Field.captured_total m.captured_total m.ledger_captured
    ++ check m.merchant_id Field.refunded_total m.refunded_total m.ledger_refunded
    ++ check m.merchant_id Field.fee_total m.fee_total m.ledger_fees

-- The loop that compares.
pub compare : List MerchantSummary → List Discrepancy
compare [] = []
compare (m ∷ ms) = checks m ++ compare ms

pub record Report : Type 0 where
  pub merchants : List MerchantSummary
  pub discrepancies : List Discrepancy
  pub unbalanced_groups : List ℕ
  pub settled_count : ℕ
  pub settlement_skipped : Bool

abbrev pub is_clean : List Discrepancy → List ℕ → Bool
is_clean [] [] = true
is_clean _ _ = false

-- `Report.OK`.
pub report_ok : Report → Bool
report_ok r = is_clean r.discrepancies r.unbalanced_groups

abbrev pub new_report : List MerchantSummary → List ℕ → Report
new_report ms unbalanced = record {
  merchants = ms;
  discrepancies = compare ms;
  unbalanced_groups = unbalanced;
  settled_count = 0;
  settlement_skipped = false;
}

-- The rounds of the settlement of the scanned transactions.
abbrev pub rounds_of : (Transaction → Others) → (Transaction → Env) → List Transaction → List Round
rounds_of others env = map (λ t. record { txn = t; others = others t; env = env t })

-- The end of `Run`, on the report of the comparison.
pub settle_if_clean : Result Error (Unit {0}) → List Round → Report → Query Report
unfolding report_ok
settle_if_clean files rounds report =
    if not (report_ok report)
    then (from_result files >> pure (record report { settlement_skipped = true }))
    else (do
      settled ← settle rounds
      from_result files
      pure (record report { settled_count = settled }))

-- `Run`.
pub run :
    ℤ
    → Result Error (List Transaction)
    → Result Error (List DailyTotals)
    → Result Error (List ℕ)
    → Result Error (Unit {0})
    → (Transaction → Others)
    → (Transaction → Env)
    → Query Report
run fee_bps captured_between aggregates unbalanced_groups files others env = do
  txns ← from_result captured_between
  totals ← from_result aggregates
  unbalanced ← from_result unbalanced_groups
  settle_if_clean files (rounds_of others env txns)
      (new_report (add_aggregates totals (add_transactions fee_bps txns [])) unbalanced)
