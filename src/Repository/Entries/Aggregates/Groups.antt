-- ===== src/Repository/Entries/Aggregates/Groups.antt =====
-- A group that is not reported has no lines.
use mini_payment_gateway.Prelude.{
  ℕ, ◌≡◌, refl, sym, ◌∙◌, subst, inl, inr, Bool, true, false, ◌&&◌, Bool-cases, Option, none, some,
  List, [], ◌∷◌, map, str_eq, eq_iff, arith,
}
use mini_payment_gateway.Prelude.Lists.{All}
use mini_payment_gateway.Prelude.Sorting.{sort_by, find-sort_by}
use mini_payment_gateway.Money.{Currency}
use mini_payment_gateway.Domain.Ledger.{LedgerEntry}
use mini_payment_gateway.Repository.Entries.Listing.{belongs_to}
use mini_payment_gateway.Repository.Entries.Aggregates.{
  GroupKey, in_group, same_key, has_group, with_group, group_keys, key_leb, totals_of, has_total,
}

abbrev in_key : GroupKey → Option ℕ → Currency → Bool
in_key k merchant_id currency = belongs_to k.0 merchant_id && str_eq currency k.1

with_group_lem :
    (k : GroupKey) (merchant_id : Option ℕ) (currency : Currency) (keys : List GroupKey)
    → has_group k (with_group merchant_id currency keys) ≡ false
    → (in_key k merchant_id currency ≡ false) × (has_group k keys ≡ false)
with_group_lem k none currency keys h = (refl, h)
with_group_lem k (some m) currency keys h = elim (Bool-cases (same_key (m, currency) k)) [
  | inl q ↦
      let one : m ≡ k.0 = ground arith in
      let two : currency ≡ k.1 = ground (arith, eq_iff currency k.1) in
      let same : (m, currency) ≡ k = λ i. (one i, two i) in
      elim (Bool-cases (has_group (m, currency) keys)) [
        | inl r ↦ absurd (ground (arith, subst (λ j. has_group j keys ≡ true) same r, rw r at h))
        | inr r ↦ absurd (ground (arith, rw (r, q) at h))
      ]
  | inr q ↦ elim (Bool-cases (has_group (m, currency) keys)) [
    | inl r ↦ (q, rw r at h)
    | inr r ↦ (q, rw (r, q) at h)
  ]
]

no_lines :
    (k : GroupKey) (es : List LedgerEntry)
    → has_group k (group_keys es) ≡ false
    → All (λ e. in_group k e ≡ false) es
unfolding group_keys
no_lines k [] h = tt
no_lines k (e ∷ es) h =
    let (here, rest) = with_group_lem k e.merchant_id e.currency (group_keys es) h in
    (here, no_lines k es rest)

has_total-map :
    (lines : List LedgerEntry) (k : GroupKey) (keys : List GroupKey)
    → has_total k (map (totals_of lines) keys) ≡ has_group k keys
has_total-map lines k [] = refl
has_total-map lines k (j ∷ js) = elim (Bool-cases (same_key j k)) [
  | inl q ↦ rw q refl
  | inr q ↦ rw q (has_total-map lines k js)
]

pub unreported_lines :
    (lines : List LedgerEntry) (k : GroupKey)
    → has_total k (map (totals_of lines) (sort_by key_leb (group_keys lines))) ≡ false
    → All (λ e. in_group k e ≡ false) lines
unreported_lines lines k h = no_lines k lines (
    sym (find-sort_by key_leb (λ j. same_key j k) (group_keys lines))
    ∙ (sym (has_total-map lines k (sort_by key_leb (group_keys lines))) ∙ h))
