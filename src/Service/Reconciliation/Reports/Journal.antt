-- ===== src/Service/Reconciliation/Reports/Journal.antt =====
-- The loop over the rows of AggregateByMerchant: the journal's totals come to be those of the summaries.
use mini_payment_gateway.Prelude.{
  ◌<◌, ◌≡◌, refl, sym, ap, ◌∙◌, ◌⊎◌, inl, inr, true, false, Bool-cases, List, [], ◌∷◌, arith,
}
use mini_payment_gateway.Prelude.Int.{ℤ, pos, pos_part, ◌≤ℤ◌, +ℤ-zero}
use mini_payment_gateway.Prelude.Int64.{half_range}
use mini_payment_gateway.Prelude.Lists.{All}
use mini_payment_gateway.Prelude.Sums.{sum_of}
use mini_payment_gateway.Domain.Transaction.{Transaction}
use mini_payment_gateway.Repository.Entries.Aggregates.{DailyTotals, GroupKey, has_total}
use mini_payment_gateway.Service.Reconciliation.Reports.{
  MerchantSummary, has_key, new_summary, change_at, add_transactions, add_aggregate, add_aggregates,
}
use mini_payment_gateway.Service.Reconciliation.Reports.Summaries.{
  key_of, has_entry, IsMap, key_of-has_key, has_key-key_of, change_at-IsMap, has_entry-change_at,
  change_at-All,
}
use mini_payment_gateway.Service.Reconciliation.Reports.Sides.{Side, own, own_nil, same_key_comm}
use mini_payment_gateway.Service.Reconciliation.Reports.Expected.{Open, Opened, add_each}

module _ (side : Side) where
  -- While the rows of AggregateByMerchant are added: the journal's total is right, or it is nothing and
  -- a row is to come or there is nothing to report.
  abbrev Settling : List Transaction → List DailyTotals → MerchantSummary → Type 0
  Settling all rest m =
      (side.total m ≡ own side (key_of m) all)
      × ((side.ledger m ≡ own side (key_of m) all)
          ⊎ ((side.ledger m ≡ pos 0)
              × ((has_total (key_of m) rest ≡ true) ⊎ (own side (key_of m) all ≡ pos 0))))

  abbrev IsRight : List Transaction → DailyTotals → Type 0
  IsRight all a = side.reported a ≡ own side (a.merchant_id, a.currency) all

  abbrev NoRows : List Transaction → List MerchantSummary → Type 0
  NoRows all ms = (k : GroupKey) → has_entry k ms ≡ false → own side k all ≡ pos 0

  module _ (all : List Transaction) where
    report_here :
        (a : DailyTotals) (rest : List DailyTotals) (m : MerchantSummary)
        → IsRight all a
        → has_key a.merchant_id a.currency m ≡ true
        → side.total m ≡ own side (key_of m) all
        → Settling all rest (add_aggregate a m)
    unfolding add_aggregate
    report_here a rest m right q e =
        let same = key_of-has_key (a.merchant_id, a.currency) m q in
        (
          side.total_aggregate a m ∙ e,
          inl (side.ledger_aggregate a m ∙ (right ∙ ap (λ k. own side k all) (sym same))),
        )

    report_there :
        (a : DailyTotals) (rest : List DailyTotals) (m : MerchantSummary)
        → has_key a.merchant_id a.currency m ≡ false
        → Settling all (a ∷ rest) m
        → Settling all rest m
    report_there a rest m q (e, inl l) = (e, inl l)
    report_there a rest m q (e, inr (l, inr z)) = (e, inr (l, inr z))
    report_there a rest m q (e, inr (l, inl h)) =
        let other = same_key_comm (a.merchant_id, a.currency) (key_of m) ∙ q in
        (e, inr (l, inl (rw other at h)))

    report_each :
        (aggs : List DailyTotals) (ms : List MerchantSummary)
        → All (IsRight all) aggs
        → IsMap ms
        → NoRows all ms
        → All (Settling all aggs) ms
        → All (Settling all []) (add_aggregates aggs ms)
    unfolding add_aggregates add_aggregate
    report_each [] ms right map_ none_left h = h
    report_each (a ∷ aggs) ms (r, right) map_ none_left h =
        let k : GroupKey = (a.merchant_id, a.currency) in
        report_each aggs (change_at k.0 k.1 (add_aggregate a) ms) right
          (change_at-IsMap k (add_aggregate a) (λ m. refl) ms map_)
          (λ j n. none_left j (has_entry-change_at k (add_aggregate a) (λ m. refl) j ms n).0)
          (change_at-All k (add_aggregate a) (λ m. refl) (Settling all (a ∷ aggs))
            (Settling all aggs) ms map_ h (λ m q x. report_here a aggs m r q x.0)
            (λ m q x. report_there a aggs m q x)
            (λ n.
              report_here a aggs (new_summary k.0 k.1) r (has_key-key_of (new_summary k.0 k.1))
                (side.total_new k ∙ sym (none_left k n))))

    settled_total :
        (ms : List MerchantSummary)
        → All (Settling all []) ms
        → All (λ m. side.total m ≡ side.ledger m) ms
    settled_total [] h = tt
    settled_total (m ∷ ms) ((e, inl l), h) = (e ∙ sym l, settled_total ms h)
    settled_total (m ∷ ms) ((e, inr (l, inl never)), h) = absurd (ground arith)
    settled_total (m ∷ ms) ((e, inr (l, inr z)), h) = (e ∙ (z ∙ sym l), settled_total ms h)

  closed :
      (all : List Transaction) (aggs : List DailyTotals) (ms : List MerchantSummary)
      → ((k : GroupKey) → has_total k aggs ≡ false → own side k all ≡ pos 0)
      → All (Open side all []) ms
      → All (Settling all aggs) ms
  unfolding sum_of
  closed all aggs [] silent h = tt
  closed all aggs (m ∷ ms) silent ((low, e, zero), h) = (
    (
      sym (+ℤ-zero (side.total m)) ∙ e,
      inr (
        zero,
        elim (Bool-cases (has_total (key_of m) aggs)) [
          | inl q ↦ inl q
          | inr q ↦ inr (silent (key_of m) q)
        ],
      ),
    ),
    closed all aggs ms silent h,
  )

  -- Where the rows of AggregateByMerchant say what the transactions add up to, so do the summaries.
  pub totals_agree :
      (fee_bps : ℤ) (all : List Transaction) (aggs : List DailyTotals)
      → ((k : GroupKey) → pos_part (own side k all) < half_range)
      → All (λ t. pos 0 ≤ℤ side.part t) all
      → All (λ a. side.reported a ≡ own side (a.merchant_id, a.currency) all) aggs
      → ((k : GroupKey) → has_total k aggs ≡ false → own side k all ≡ pos 0)
      → All
          (λ m. side.total m ≡ side.ledger m)
          (add_aggregates aggs (add_transactions fee_bps all []))
  totals_agree fee_bps all aggs fit nonneg right silent =
      let begin : Opened side all all [] = record {
        is_map = tt;
        entries = tt;
        missing = λ k n. refl;
      } in
      let x = add_each side fee_bps all fit all [] nonneg begin in
      settled_total all _ (
        report_each all aggs _ right x.is_map (λ k n. sym (x.missing k n) ∙ own_nil side k)
          (closed all aggs _ silent x.entries))
