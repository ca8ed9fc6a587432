-- ===== src/Service/Reconciliation/Reports/Day.antt =====
-- The comparison of a day on the store.
use mini_payment_gateway.Prelude.{
  ◌<◌, ◌≡◌, refl, sym, subst, inl, inr, true, false, Bool-cases, Option, List, [], ◌∷◌, ok, arith,
}
use mini_payment_gateway.Prelude.Int.{ℤ, pos, pos_part, ◌≤ℤ◌, eqb_ℤ, eqb_ℤ-refl}
use mini_payment_gateway.Prelude.Int64.{half_range}
use mini_payment_gateway.Prelude.Lists.{All, All-imp, All-append}
use mini_payment_gateway.Domain.Errors.{Error}
use mini_payment_gateway.Domain.Transaction.{Time, Transaction}
use mini_payment_gateway.Domain.Transaction.Validity.{IsValid}
use mini_payment_gateway.Repository.{Store, Faults}
use mini_payment_gateway.Repository.Books.{IsSound}
use mini_payment_gateway.Repository.Entries.Queries.{fits}
use mini_payment_gateway.Repository.Entries.Aggregates.{
  DailyTotals, GroupKey, same_key, has_total, all_fit, aggregate_by_merchant,
}
use mini_payment_gateway.Repository.Entries.Aggregates.Totals.{
  IsAttributed, aggregate_by_merchant-list_captured_between, aggregate_by_merchant_fits,
  unreported_totals, list_captured_between-IsValid,
}
use mini_payment_gateway.Repository.Transactions.Listing.{list_captured_between}
use mini_payment_gateway.Repository.Transactions.Listing.Order.{IsKeyed}
use mini_payment_gateway.Service.Reconciliation.Reports.{
  MerchantSummary, Field, add_transactions, add_aggregates, checks, compare,
}
use mini_payment_gateway.Service.Reconciliation.Reports.Journal.{totals_agree}
use mini_payment_gateway.Service.Reconciliation.Reports.Sides.{
  Side, captured_side, refunded_side, own, same_key-eq,
}

-- A summary whose first two totals are those of the journal has at most a discrepancy in the fees.
checks_fee :
    (m : MerchantSummary)
    → m.captured_total ≡ m.ledger_captured
    → m.refunded_total ≡ m.ledger_refunded
    → All (λ d. d.field ≡ Field.fee_total) (checks m)
checks_fee m c r =
    rw (c, r, eqb_ℤ-refl m.ledger_captured, eqb_ℤ-refl m.ledger_refunded)
      (elim (Bool-cases (eqb_ℤ m.fee_total m.ledger_fees)) [
        | inl q ↦ rw q tt
        | inr q ↦ rw q (refl, tt)
      ])

compare_fee :
    (ms : List MerchantSummary)
    → All (λ m. m.captured_total ≡ m.ledger_captured) ms
    → All (λ m. m.refunded_total ≡ m.ledger_refunded) ms
    → All (λ d. d.field ≡ Field.fee_total) (compare ms)
unfolding compare
compare_fee [] c r = tt
compare_fee (m ∷ ms) (c, cs) (r, rs) =
    All-append (λ d. d.field ≡ Field.fee_total) (checks m) (compare ms) (checks_fee m c r)
      (compare_fee ms cs rs)

module _ (side : Side) (all : List Transaction) where
  -- The sum of a key fits where the total that is reported of it does.
  reported_fits :
      (aggs : List DailyTotals) (k : GroupKey)
      → All (λ a. fits (side.reported a) ≡ true) aggs
      → All (λ a. side.reported a ≡ own side (a.merchant_id, a.currency) all) aggs
      → has_total k aggs ≡ true
      → pos_part (own side k all) < half_range
  reported_fits [] k f r h = absurd (ground arith)
  reported_fits (a ∷ aggs) k (f, fs) (r, rs) h =
      elim (Bool-cases (same_key (a.merchant_id, a.currency) k)) [
        | inl q ↦
            subst (λ j. pos_part (own side j all) < half_range)
              (same_key-eq (a.merchant_id, a.currency) k q)
              (subst (λ x. pos_part x < half_range) r (ground (arith, f)))
        | inr q ↦ reported_fits aggs k fs rs (rw q at h)
      ]

  own-fits :
      (aggs : List DailyTotals)
      → All (λ a. fits (side.reported a) ≡ true) aggs
      → All (λ a. side.reported a ≡ own side (a.merchant_id, a.currency) all) aggs
      → ((k : GroupKey) → has_total k aggs ≡ false → own side k all ≡ pos 0)
      → (k : GroupKey) → pos_part (own side k all) < half_range
  own-fits aggs f r silent k = elim (Bool-cases (has_total k aggs)) [
    | inl q ↦ reported_fits aggs k f r q
    | inr q ↦ subst (λ x. pos_part x < half_range) (sym (silent k q)) (ground arith)
  ]

each_fits :
    (aggs : List DailyTotals)
    → all_fit aggs ≡ true
    → All (λ a. (fits a.captured ≡ true) × (fits a.refunded ≡ true)) aggs
each_fits [] h = tt
each_fits (a ∷ aggs) h = (ground arith, each_fits aggs (ground arith))

-- Where the books are sound, the ids of the rows are distinct, each line of the journal belongs to
-- a row and names its merchant and its currency, and both queries of a reconciliation succeed on
-- the same store, every discrepancy of the report is one of a fee total: the captured and the
-- refunded totals of all merchants and currencies agree.
pub only_fees_differ :
    (fee_bps : ℤ) (fault : Option Error) (faults : Faults) (from to : Time) (s : Store)
    {totals : List DailyTotals} {txns : List Transaction} {s' : Store}
    → IsKeyed s.transactions
    → IsSound s
    → All (IsAttributed s.transactions) s.entries
    → aggregate_by_merchant fault from to s ≡ ok totals
    → list_captured_between faults from to s ≡ (ok txns, s')
    → All
        (λ d. d.field ≡ Field.fee_total)
        (compare (add_aggregates totals (add_transactions fee_bps txns [])))
unfolding captured_side refunded_side
only_fees_differ fee_bps fault faults from to s {totals} {txns} {s'} keyed sound attributed h l =
    let right =
      aggregate_by_merchant-list_captured_between fault faults from to s {totals = totals}
        {txns = txns} {s' = s'} keyed sound attributed h l in
    let silent =
      unreported_totals fault faults from to s {totals = totals} {txns = txns} {s' = s'} keyed sound
        attributed h l in
    let valid =
      list_captured_between-IsValid faults from to s {txns = txns} {s' = s'} keyed sound l in
    let fit = each_fits totals (aggregate_by_merchant_fits fault from to s {totals = totals} h) in
    let captured_right =
      All-imp _ (λ d. d.captured ≡ own captured_side (d.merchant_id, d.currency) txns) (λ d x. x.0)
        totals right in
    let refunded_right =
      All-imp _ (λ d. d.refunded ≡ own refunded_side (d.merchant_id, d.currency) txns) (λ d x. x.1)
        totals right in
    let captured_fit = All-imp _ (λ a. fits a.captured ≡ true) (λ a x. x.0) totals fit in
    let refunded_fit = All-imp _ (λ a. fits a.refunded ≡ true) (λ a x. x.1) totals fit in
    compare_fee (add_aggregates totals (add_transactions fee_bps txns []))
      (totals_agree captured_side fee_bps txns totals
        (own-fits captured_side txns totals captured_fit captured_right (λ k n. (silent k n).0))
        (All-imp IsValid (λ t. pos 0 ≤ℤ t.captured_amount)
          (λ t v. ground (arith, v.refunded_nonneg, v.refunded_le)) txns valid)
        captured_right (λ k n. (silent k n).0))
      (totals_agree refunded_side fee_bps txns totals
        (own-fits refunded_side txns totals refunded_fit refunded_right (λ k n. (silent k n).1))
        (All-imp IsValid (λ t. pos 0 ≤ℤ t.refunded_amount) (λ t v. v.refunded_nonneg) txns valid)
        refunded_right (λ k n. (silent k n).1))
