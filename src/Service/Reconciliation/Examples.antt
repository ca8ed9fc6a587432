-- ===== src/Service/Reconciliation/Examples.antt =====
-- The theorems on reconciliation at concrete days.
use mini_payment_gateway.Prelude.{ℕ, ◌≡◌, refl, List, [], ◌∷◌, none, some, ok, ◌>>=◌, arith}
use mini_payment_gateway.Prelude.Lists.{All}
use mini_payment_gateway.Money.{fee}
use mini_payment_gateway.Domain.Transaction.{capture as capture_row, remaining_capturable}
use mini_payment_gateway.Domain.Ledger.{LedgerEntry, new_capture_entry_group}
use mini_payment_gateway.Repository.{Store, with_tx}
use mini_payment_gateway.Repository.Entries.{insert_group}
use mini_payment_gateway.Repository.Transactions.{get_by_merchant_and_id, get_for_update, update}
use mini_payment_gateway.Repository.Transactions.Listing.{list_captured_between}
use mini_payment_gateway.Prelude.Int.{pos}
use mini_payment_gateway.Repository.Books.{IsSound}
use mini_payment_gateway.Service.Payment.{capture, capture_check, capture_body, queue_webhook}
use mini_payment_gateway.Service.Payment.Requests.{capture-IsSound}
use mini_payment_gateway.Service.Payment.Examples.{
  store, store-IsSound, env, nothing_else, approves, captured_row,
}
use mini_payment_gateway.Repository.Entries.Aggregates.{DailyTotals, aggregate_by_merchant}
use mini_payment_gateway.Repository.Entries.Aggregates.Totals.{IsAttributed}
use mini_payment_gateway.Service.Reconciliation.Reports.{
  MerchantSummary, new_report, settle_if_clean, run, Field, compare, add_transactions,
  add_aggregates, new_summary,
}
use mini_payment_gateway.Service.Reconciliation.Reports.Day.{only_fees_differ}
use mini_payment_gateway.Service.Reconciliation.Reports.Comparison.{IsBalanced}
use mini_payment_gateway.Service.Reconciliation.Reports.Runs.{
  run-IsSound, disagreement_settles_nothing,
}

-- The day of one capture, whose fee the journal has.
abbrev totals : DailyTotals
totals = record {
  merchant_id = 1;
  currency = "USD";
  captured = pos 600;
  refunded = pos 0;
  fees = pos 15;
}

run-IsSound_example :
    IsSound
      (run
        (pos 250)
        (ok (captured_row ∷ []))
        (ok (totals ∷ []))
        (ok [])
        (ok tt)
        (λ t. nothing_else)
        (λ t. env)
        (capture env approves nothing_else 1 7 (pos 600) store).1).1
run-IsSound_example =
    run-IsSound (pos 250) (ok (captured_row ∷ [])) (ok (totals ∷ [])) (ok []) (ok tt)
      (λ t. nothing_else) (λ t. env) _ (λ x t h. h)
      (capture-IsSound env approves nothing_else 1 7 (pos 600) store (λ t h. h) store-IsSound)

-- The fees of two captures of 599 and 401 at 2.5 percent are 14 and 10, and that of 1000 is 25.
abbrev short_by_one : MerchantSummary
short_by_one = record (new_summary 1 "USD") {
  captured_total = pos 1000;
  fee_total = pos 25;
  ledger_captured = pos 1000;
  ledger_fees = pos 24;
}

short_by_one_differs : ¬ (All IsBalanced (short_by_one ∷ []) × (◌≡◌ {A = List ℕ} [] []))
short_by_one_differs h = ground arith

disagreement_settles_nothing_example :
    (settle_if_clean (ok tt) [] (new_report (short_by_one ∷ []) []) store).1 ≡ store
disagreement_settles_nothing_example =
    disagreement_settles_nothing (ok tt) [] (short_by_one ∷ []) [] store short_by_one_differs

-- The store after the capture: its row, the three lines of its group, and its webhook.
abbrev day_end : Store
day_end = (capture env approves nothing_else 1 7 (pos 600) store).1

day_end_rows : day_end.transactions ≡ captured_row ∷ []
unfolding capture capture_check capture_body ◌>>=◌ get_by_merchant_and_id get_for_update with_tx
    update insert_group new_capture_entry_group queue_webhook capture_row remaining_capturable fee
day_end_rows = refl

attributed :
    (e : LedgerEntry)
    → e.transaction_id ≡ 7
    → e.merchant_id ≡ some 1
    → e.currency ≡ "USD"
    → IsAttributed day_end.transactions e
attributed e tx m c = record {
  row = captured_row;
  found = rw (day_end_rows, tx) refl;
  merchant = m;
  currency = c;
}

day_end_lines : All (IsAttributed day_end.transactions) day_end.entries
unfolding capture capture_check capture_body ◌>>=◌ get_by_merchant_and_id get_for_update with_tx
    update insert_group new_capture_entry_group queue_webhook capture_row remaining_capturable fee
day_end_lines =
    (attributed _ refl refl refl, (attributed _ refl refl refl, (attributed _ refl refl refl, tt)))

only_fees_differ_example :
    All
      (λ d. d.field ≡ Field.fee_total)
      (compare (add_aggregates (totals ∷ []) (add_transactions (pos 250) (captured_row ∷ []) [])))
unfolding capture capture_check capture_body ◌>>=◌ get_by_merchant_and_id get_for_update with_tx
    update insert_group new_capture_entry_group queue_webhook capture_row remaining_capturable fee
    aggregate_by_merchant list_captured_between
only_fees_differ_example =
    only_fees_differ (pos 250) none (λ k. none) (pos 0) (pos 200) day_end {totals = totals ∷ []}
      {txns = captured_row ∷ []} {s' = day_end} (tt, tt)
      (capture-IsSound env approves nothing_else 1 7 (pos 600) store (λ t h. h) store-IsSound)
      day_end_lines refl refl
