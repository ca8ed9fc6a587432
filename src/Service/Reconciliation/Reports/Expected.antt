-- ===== src/Service/Reconciliation/Reports/Expected.antt =====
-- The loop over the transactions of a day: what the summaries add up.
use mini_payment_gateway.Prelude.{
  ◌<◌, ◌≡◌, refl, sym, ◌∙◌, subst, true, false, List, [], ◌∷◌, arith,
}
use mini_payment_gateway.Prelude.Int.{
  ℤ, pos, pos_part, ◌+ℤ◌, ◌≤ℤ◌, zero-+ℤ, +ℤ_assoc, +ℤ_parts, parts_disjoint,
}
use mini_payment_gateway.Prelude.Int64.{half_range, add64, add64_exact}
use mini_payment_gateway.Prelude.Lists.{All}
use mini_payment_gateway.Domain.Transaction.{Transaction}
use mini_payment_gateway.Repository.Entries.Aggregates.{GroupKey}
use mini_payment_gateway.Repository.Entries.Aggregates.Totals.{has_key as of_group}
use mini_payment_gateway.Service.Reconciliation.Reports.{
  MerchantSummary, has_key, new_summary, change_at, add_transaction, add_transactions,
}
use mini_payment_gateway.Service.Reconciliation.Reports.Summaries.{
  key_of, has_entry, IsMap, has_key-key_of, change_at-IsMap, has_entry-change_at, change_at-All,
}
use mini_payment_gateway.Service.Reconciliation.Reports.Sides.{
  Side, own, own-cons, own-nonneg, same_key_comm,
}

-- A total to which a part is added, with what is still to come.
grows :
    (a p r w : ℤ)
    → pos 0 ≤ℤ a
    → pos 0 ≤ℤ p
    → pos 0 ≤ℤ r
    → a +ℤ (p +ℤ r) ≡ w
    → pos_part w < half_range
    → (add64 a p ≡ a +ℤ p) × (pos 0 ≤ℤ a +ℤ p) × (a +ℤ p +ℤ r ≡ w)
grows a p r w ha hp hr e fits =
    let whole : a +ℤ p +ℤ r ≡ w = +ℤ_assoc a p r ∙ e in
    let nonneg : pos 0 ≤ℤ a +ℤ p = ground (arith, +ℤ_parts a p) in
    let fits' = subst (λ z. pos_part z < half_range) (sym whole) fits in
    (
      add64_exact a p (
          ground (
            arith,
            nonneg,
            hr,
            fits',
            parts_disjoint (a +ℤ p),
            parts_disjoint r,
            +ℤ_parts (a +ℤ p) r,
          )),
      nonneg,
      whole,
    )

module _ (side : Side) where
  -- While the transactions are added: what an entry has and what is to come are the whole sum, and the
  -- sum of a key without an entry is still to come.
  abbrev pub Open : List Transaction → List Transaction → MerchantSummary → Type 0
  Open all rest m =
      (pos 0 ≤ℤ side.total m)
      × (side.total m +ℤ own side (key_of m) rest ≡ own side (key_of m) all)
      × (side.ledger m ≡ pos 0)

  abbrev pub Missing : List Transaction → List Transaction → List MerchantSummary → Type 0
  Missing all rest ms = (k : GroupKey) → has_entry k ms ≡ false → own side k rest ≡ own side k all

  pub record Opened (all rest : List Transaction) (ms : List MerchantSummary) : Type 0 where
    pub is_map : IsMap ms
    pub entries : All (Open all rest) ms
    pub missing : Missing all rest ms

  module _ (fee_bps : ℤ) (all : List Transaction)
      (fit : (k : GroupKey) → pos_part (own side k all) < half_range) where
    -- The entry of a transaction's key.
    add_here :
        (t : Transaction) (ts : List Transaction) (m : MerchantSummary)
        → All (λ t. pos 0 ≤ℤ side.part t) (t ∷ ts)
        → has_key t.merchant_id t.currency m ≡ true
        → Open all (t ∷ ts) m
        → Open all ts (add_transaction fee_bps t m)
    unfolding add_transaction
    add_here t ts m (h, hs) q (low, whole, zero) =
        let ours : of_group (key_of m) t ≡ true =
          same_key_comm (t.merchant_id, t.currency) (key_of m) ∙ q in
        let parts = rw (own-cons side (key_of m) t ts, ours) at whole in
        let (exact, low', whole') =
          grows (side.total m) (side.part t) (own side (key_of m) ts) (own side (key_of m) all) low
            h (own-nonneg side (key_of m) ts hs) parts (fit (key_of m)) in
        rw (side.total_add fee_bps t m, exact, side.ledger_add fee_bps t m) (low', whole', zero)

    add_there :
        (t : Transaction) (ts : List Transaction) (m : MerchantSummary)
        → has_key t.merchant_id t.currency m ≡ false
        → Open all (t ∷ ts) m
        → Open all ts m
    add_there t ts m q (low, whole, zero) =
        let theirs : of_group (key_of m) t ≡ false =
          same_key_comm (t.merchant_id, t.currency) (key_of m) ∙ q in
        (low, rw (own-cons side (key_of m) t ts, theirs, zero-+ℤ) at whole, zero)

    add_one :
        (t : Transaction) (ts : List Transaction) (ms : List MerchantSummary)
        → All (λ t. pos 0 ≤ℤ side.part t) (t ∷ ts)
        → Opened all (t ∷ ts) ms
        → Opened all ts (change_at t.merchant_id t.currency (add_transaction fee_bps t) ms)
    unfolding add_transaction
    add_one t ts ms h x =
        let k : GroupKey = (t.merchant_id, t.currency) in
        let fresh : has_entry k ms ≡ false → Open all (t ∷ ts) (new_summary k.0 k.1) = λ n.
          rw (side.total_new k, side.ledger_new k)
            (ground arith, zero-+ℤ _ ∙ x.missing k n, refl) in
        record {
          is_map = change_at-IsMap k (add_transaction fee_bps t) (λ m. refl) ms x.is_map;
          entries =
              change_at-All k (add_transaction fee_bps t) (λ m. refl) (Open all (t ∷ ts))
                (Open all ts) ms x.is_map x.entries (λ m q o. add_here t ts m h q o)
                (λ m q o. add_there t ts m q o)
                (λ n.
                  add_here t ts (new_summary k.0 k.1) h (has_key-key_of (new_summary k.0 k.1))
                    (fresh n));
          missing = λ j n.
              let (before, other) =
                has_entry-change_at k (add_transaction fee_bps t) (λ m. refl) j ms n in
              rw (own-cons side j t ts, other, zero-+ℤ) at (x.missing j before);
        }

    pub add_each :
        (ts : List Transaction) (ms : List MerchantSummary)
        → All (λ t. pos 0 ≤ℤ side.part t) ts
        → Opened all ts ms
        → Opened all [] (add_transactions fee_bps ts ms)
    unfolding add_transactions
    add_each [] ms h x = x
    add_each (t ∷ ts) ms h x =
        add_each ts (change_at t.merchant_id t.currency (add_transaction fee_bps t) ms) h.1
          (add_one t ts ms h x)
