-- ===== src/Service/Reconciliation/Reports/Sides.antt =====
-- The two totals of a summary: what the transactions and the rows of AggregateByMerchant make of them.
use mini_payment_gateway.Prelude.{
  String, ◌≡◌, refl, sym, ap, ◌∙◌, inl, inr, true, ◌&&◌, Bool-cases, List, [], ◌∷◌, ◌==◌, str_eq,
  eq_iff, if◌then◌else◌, arith,
}
use mini_payment_gateway.Prelude.Int.{ℤ, pos, ◌+ℤ◌, ◌≤ℤ◌, zero-+ℤ, +ℤ_parts}
use mini_payment_gateway.Prelude.Int64.{add64}
use mini_payment_gateway.Prelude.Lists.{filter, All}
use mini_payment_gateway.Prelude.Sums.{sum_of}
use mini_payment_gateway.Money.{Amount}
use mini_payment_gateway.Domain.Transaction.{Transaction}
use mini_payment_gateway.Repository.Entries.Aggregates.{DailyTotals, GroupKey, same_key}
use mini_payment_gateway.Repository.Entries.Aggregates.Totals.{has_key as of_group}
use mini_payment_gateway.Service.Reconciliation.Reports.{
  MerchantSummary, new_summary, add_transaction, add_aggregate,
}

-- What is compared: a total of the transactions and the journal's, the part of a transaction in it,
-- and what a row of AggregateByMerchant says.
pub record Side : Type 0 where
  pub total : MerchantSummary → Amount
  pub ledger : MerchantSummary → Amount
  pub part : Transaction → Amount
  pub reported : DailyTotals → Amount
  pub total_new : (k : GroupKey) → total (new_summary k.0 k.1) ≡ pos 0
  pub ledger_new : (k : GroupKey) → ledger (new_summary k.0 k.1) ≡ pos 0
  pub total_add :
      (fee_bps : ℤ) (t : Transaction) (m : MerchantSummary)
      → total (add_transaction fee_bps t m) ≡ add64 (total m) (part t)
  pub ledger_add :
      (fee_bps : ℤ) (t : Transaction) (m : MerchantSummary)
      → ledger (add_transaction fee_bps t m) ≡ ledger m
  pub total_aggregate :
      (a : DailyTotals) (m : MerchantSummary) → total (add_aggregate a m) ≡ total m
  pub ledger_aggregate :
      (a : DailyTotals) (m : MerchantSummary) → ledger (add_aggregate a m) ≡ reported a

unfoldable pub captured_side : Side
unfolding add_transaction add_aggregate
captured_side = record {
  total = λ m. m.captured_total;
  ledger = λ m. m.ledger_captured;
  part = λ t. t.captured_amount;
  reported = λ a. a.captured;
  total_new = λ k. refl;
  ledger_new = λ k. refl;
  total_add = λ fee_bps t m. refl;
  ledger_add = λ fee_bps t m. refl;
  total_aggregate = λ a m. refl;
  ledger_aggregate = λ a m. refl;
}

unfoldable pub refunded_side : Side
unfolding add_transaction add_aggregate
refunded_side = record {
  total = λ m. m.refunded_total;
  ledger = λ m. m.ledger_refunded;
  part = λ t. t.refunded_amount;
  reported = λ a. a.refunded;
  total_new = λ k. refl;
  ledger_new = λ k. refl;
  total_add = λ fee_bps t m. refl;
  ledger_add = λ fee_bps t m. refl;
  total_aggregate = λ a m. refl;
  ledger_aggregate = λ a m. refl;
}

str_eq_comm : (a b : String) → str_eq a b ≡ str_eq b a
str_eq_comm a b = elim (Bool-cases (str_eq a b)) [
  | inl h ↦ h ∙ sym ((eq_iff b a).1 (sym ((eq_iff a b).0 h)))
  | inr h ↦ elim (Bool-cases (str_eq b a)) [
    | inl k ↦ (eq_iff a b).1 (sym ((eq_iff b a).0 k)) ∙ sym k
    | inr k ↦ h ∙ sym k
  ]
]

pub same_key_comm : (j k : GroupKey) → same_key j k ≡ same_key k j
same_key_comm j k =
    let first : (j.0 == k.0) ≡ (k.0 == j.0) = ground arith in
    ap (λ b. b && str_eq j.1 k.1) first ∙ ap (λ b. k.0 == j.0 && b) (str_eq_comm j.1 k.1)

pub same_key-eq : (j k : GroupKey) → same_key j k ≡ true → j ≡ k
same_key-eq j k h =
    let one : j.0 ≡ k.0 = ground arith in
    let two : j.1 ≡ k.1 = ground (arith, eq_iff j.1 k.1) in λ i. (one i, two i)

module _ (side : Side) where
  -- The sum over the transactions of a key.
  abbrev pub own : GroupKey → List Transaction → ℤ
  own k ts = sum_of side.part (filter (of_group k) ts)

  pub own_nil : (k : GroupKey) → own k [] ≡ pos 0
  unfolding sum_of
  own_nil k = refl

  pub own-cons :
      (k : GroupKey) (t : Transaction) (ts : List Transaction)
      → own k (t ∷ ts) ≡ (if of_group k t then side.part t else pos 0) +ℤ own k ts
  unfolding sum_of
  own-cons k t ts = elim (Bool-cases (of_group k t)) [
    | inl h ↦ rw h refl
    | inr h ↦ rw h (sym (zero-+ℤ _))
  ]

  pub own-nonneg :
      (k : GroupKey) (ts : List Transaction)
      → All (λ t. pos 0 ≤ℤ side.part t) ts
      → pos 0 ≤ℤ own k ts
  unfolding sum_of
  own-nonneg k [] h = ground arith
  own-nonneg k (t ∷ ts) (h, hs) =
      let rest = own-nonneg k ts hs in
      elim (Bool-cases (of_group k t)) [
        | inl q ↦ rw q (ground (arith, h, rest, +ℤ_parts (side.part t) (own k ts)))
        | inr q ↦ rw q rest
      ]
