-- ===== src/Service/Reconciliation/Reports/Summaries.antt =====
-- The map of the summaries: one for each merchant and currency.
use mini_payment_gateway.Prelude.{
  ◌≡◌, refl, sym, ap, ◌∙◌, subst, inl, inr, Bool, true, false, ◌&&◌, ◌||◌, Bool-cases, List, [],
  ◌∷◌, ◌==◌, str_eq, eq_iff, arith,
}
use mini_payment_gateway.Prelude.Lists.{All, All-imp, All-both}
use mini_payment_gateway.Repository.Entries.Aggregates.{GroupKey}
use mini_payment_gateway.Service.Reconciliation.Reports.{
  MerchantSummary, has_key, new_summary, change_at,
}

abbrev pub key_of : MerchantSummary → GroupKey
key_of m = (m.merchant_id, m.currency)

-- Whether the map has an entry.
abbrev pub has_entry : GroupKey → List MerchantSummary → Bool
has_entry k [] = false
has_entry k (m ∷ ms) = has_key k.0 k.1 m || has_entry k ms

-- No two entries have one key.
abbrev pub IsMap : List MerchantSummary → Type 0
IsMap [] = Unit
IsMap (m ∷ ms) = All (λ x. has_key m.merchant_id m.currency x ≡ false) ms × IsMap ms

pub key_of-has_key : (k : GroupKey) (m : MerchantSummary) → has_key k.0 k.1 m ≡ true → key_of m ≡ k
key_of-has_key k m h =
    let one : m.merchant_id ≡ k.0 = ground arith in
    let two : m.currency ≡ k.1 = ground (arith, eq_iff m.currency k.1) in λ i. (one i, two i)

pub has_key-key_of : (m : MerchantSummary) → has_key m.merchant_id m.currency m ≡ true
has_key-key_of m = ground (arith, eq_iff m.currency m.currency)

-- An entry apart from that of another of its key.
apart :
    (k : GroupKey) (m x : MerchantSummary)
    → has_key k.0 k.1 m ≡ true
    → has_key m.merchant_id m.currency x ≡ false
    → has_key k.0 k.1 x ≡ false
apart k m x h n = subst (λ j. has_key j.0 j.1 x ≡ false) (key_of-has_key k m h) n

-- An entry of another key is apart from a new one.
new_apart :
    (k : GroupKey) (m : MerchantSummary)
    → has_key k.0 k.1 m ≡ false
    → has_key m.merchant_id m.currency (new_summary k.0 k.1) ≡ false
new_apart k m n = elim (Bool-cases (has_key m.merchant_id m.currency (new_summary k.0 k.1))) [
  | inl h ↦
      let same : k ≡ key_of m = key_of-has_key (key_of m) (new_summary k.0 k.1) h in
      let found = subst (λ j. has_key j.0 j.1 m ≡ true) (sym same) (has_key-key_of m) in
      absurd (ground (arith, n, found))
  | inr h ↦ h
]

either_false : (a b : Bool) → (a || b) ≡ false → (a ≡ false) × (b ≡ false)
either_false a b h = ground arith

module _ (k : GroupKey) (f : MerchantSummary → MerchantSummary)
    (keeps : (m : MerchantSummary) → key_of (f m) ≡ key_of m) where
  pub has_key-kept :
      (j : GroupKey) (m : MerchantSummary) → has_key j.0 j.1 (f m) ≡ has_key j.0 j.1 m
  has_key-kept j m = ap (λ l. l.0 == j.0 && str_eq l.1 j.1) (keeps m)

  All-apart :
      (m : MerchantSummary) (ms : List MerchantSummary)
      → All (λ x. has_key m.merchant_id m.currency x ≡ false) ms
      → has_key k.0 k.1 m ≡ false
      → All (λ x. has_key m.merchant_id m.currency x ≡ false) (change_at k.0 k.1 f ms)
  unfolding change_at
  All-apart m [] h n = (has_key-kept (key_of m) (new_summary k.0 k.1) ∙ new_apart k m n, tt)
  All-apart m (x ∷ xs) (h, hs) n = elim (Bool-cases (has_key k.0 k.1 x)) [
    | inl q ↦ rw q (has_key-kept (key_of m) x ∙ h, hs)
    | inr q ↦ rw q (h, All-apart m xs hs n)
  ]

  pub change_at-IsMap : (ms : List MerchantSummary) → IsMap ms → IsMap (change_at k.0 k.1 f ms)
  unfolding change_at
  change_at-IsMap [] h = (tt, tt)
  change_at-IsMap (m ∷ ms) (h, hs) = elim (Bool-cases (has_key k.0 k.1 m)) [
    | inl q ↦ rw q (subst (λ j. All (λ x. has_key j.0 j.1 x ≡ false) ms) (sym (keeps m)) h, hs)
    | inr q ↦ rw q (All-apart m ms h q, change_at-IsMap ms hs)
  ]

  -- A change makes the entry of its key and no other.
  pub has_entry-change_at :
      (j : GroupKey) (ms : List MerchantSummary)
      → has_entry j (change_at k.0 k.1 f ms) ≡ false
      → (has_entry j ms ≡ false) × (has_key j.0 j.1 (new_summary k.0 k.1) ≡ false)
  unfolding change_at
  has_entry-change_at j [] h = (refl, sym (has_key-kept j (new_summary k.0 k.1)) ∙ ground arith)
  has_entry-change_at j (m ∷ ms) h = elim (Bool-cases (has_key k.0 k.1 m)) [
    | inl q ↦
        let (a, b) = either_false (has_key j.0 j.1 (f m)) (has_entry j ms) (rw q at h) in
        let own = sym (has_key-kept j m) ∙ a in
        (
          rw (own, b) refl,
          ap (λ l. l.0 == j.0 && str_eq l.1 j.1) (sym (key_of-has_key k m q)) ∙ own,
        )
    | inr q ↦
        let (a, b) =
          either_false (has_key j.0 j.1 m) (has_entry j (change_at k.0 k.1 f ms)) (rw q at h) in
        let (c, d) = has_entry-change_at j ms b in (rw (a, c) refl, d)
  ]

  -- What holds of the entries after the change.
  pub change_at-All :
      (P Q : MerchantSummary → Type 0) (ms : List MerchantSummary)
      → IsMap ms
      → All P ms
      → ((m : MerchantSummary) → has_key k.0 k.1 m ≡ true → P m → Q (f m))
      → ((m : MerchantSummary) → has_key k.0 k.1 m ≡ false → P m → Q m)
      → (has_entry k ms ≡ false → Q (f (new_summary k.0 k.1)))
      → All Q (change_at k.0 k.1 f ms)
  unfolding change_at
  change_at-All P Q [] d h here there fresh = (fresh refl, tt)
  change_at-All P Q (m ∷ ms) (a, d) (h, hs) here there fresh =
      elim (Bool-cases (has_key k.0 k.1 m)) [
        | inl q ↦ rw q (
          here m q h,
          All-imp _ Q (λ x (n, p). there x (apart k m x q n) p) ms (All-both _ P ms a hs),
        )
        | inr q ↦
            rw q (there m q h, change_at-All P Q ms d hs here there (λ e. fresh (rw (q, e) refl)))
      ]
