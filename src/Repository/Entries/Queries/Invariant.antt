-- ===== src/Repository/Entries/Queries/Invariant.antt =====
-- What CheckInvariant finds.
use mini_payment_gateway.Prelude.{
  ℕ, ◌≡◌, refl, sym, ap, subst, ◌∙◌, Result, ◌↔◌, Bool, true, false, Bool-cases, inl, inr, none,
  List, [], ◌∷◌, ok, ◌==◌, ==_iff, if◌then◌else◌, ◌&&◌, not-false, arith,
}
use mini_payment_gateway.Prelude.Int.{pos, eqb_ℤ-refl, eqb_ℤ→eq, +ℤ-zero}
use mini_payment_gateway.Prelude.Lists.{filter}
use mini_payment_gateway.Domain.Errors.{Error}
use mini_payment_gateway.Domain.Ledger.{LedgerEntry}
use mini_payment_gateway.Repository.{Store}
use mini_payment_gateway.Repository.Books.{debits_of, credits_of}
use mini_payment_gateway.Repository.Entries.Appends.{sum_where}
use mini_payment_gateway.Repository.Entries.Queries.{
  mem, group_ids, is_unbalanced, find_unbalanced_groups,
}

filter_none :
    {A : Type 0} (p : A → Bool) → ((x : A) → p x ≡ false) → (xs : List A) → filter p xs ≡ []
filter_none p h [] = refl
filter_none p h (x ∷ xs) = rw (h x) (filter_none p h xs)

filter_nil :
    (p : ℕ → Bool) (x : ℕ) (xs : List ℕ)
    → filter p (x ∷ xs) ≡ []
    → (p x ≡ false) × (filter p xs ≡ [])
filter_nil p x xs h = elim (Bool-cases (p x)) [
  | inl e ↦ let found : x ∷ filter p xs ≡ [] = rw e at h in cc
  | inr e ↦ (e, rw e at h)
]

-- Nothing that is in the list passes a test which nothing of it passes.
filter_found :
    (p : ℕ → Bool) (g : ℕ) (xs : List ℕ) → filter p xs ≡ [] → mem g xs ≡ true → p g ≡ false
filter_found p g [] h k = cc
filter_found p g (x ∷ xs) h k =
    let (here, rest) = filter_nil p x xs h in
    elim (Bool-cases (x == g)) [
      | inl e ↦ subst (λ y. p y ≡ false) ((==_iff x g).0 e) here
      | inr e ↦ filter_found p g xs rest (rw e at k)
    ]

group_ids-mem :
    (g : ℕ) (e : LedgerEntry) (es : List LedgerEntry)
    → mem g (group_ids (e ∷ es)) ≡ false
    → ((e.entry_group_id == g) ≡ false) × (mem g (group_ids es) ≡ false)
unfolding group_ids
group_ids-mem g e es h = elim (Bool-cases (mem e.entry_group_id (group_ids es))) [
  | inl m ↦
      let out : mem g (group_ids es) ≡ false = rw m at h in
      (ground (arith, ap (λ x. mem x (group_ids es))), out)
  | inr m ↦
      let out : (if e.entry_group_id == g then true else mem g (group_ids es)) ≡ false =
        rw m at h in
      (ground arith, ground arith)
]

-- A group without lines has no sums.
no_lines :
    (p : LedgerEntry → Bool) (g : ℕ) (es : List LedgerEntry)
    → mem g (group_ids es) ≡ false
    → sum_where (λ e. e.entry_group_id == g && p e) es ≡ pos 0
unfolding group_ids sum_where
no_lines p g [] h = refl
no_lines p g (e ∷ es) h =
    let (other, rest) = group_ids-mem g e es h in rw (other, no_lines p g es rest) (+ℤ-zero (pos 0))

ok_inj : {A : Type 0} {x y : A} → ◌≡◌ {A = Result Error A} (ok x) (ok y) → x ≡ y
ok_inj h = cc

-- CheckInvariant finds nothing exactly when the debits and the credits of every entry group,
-- whatever its id, are equal, where the query does not fail.
pub find_unbalanced_groups_iff :
    (s : Store)
    → (find_unbalanced_groups none s ≡ ok [])
      ↔ ((group : ℕ) → debits_of group s.entries ≡ credits_of group s.entries)
unfolding find_unbalanced_groups
find_unbalanced_groups_iff s = (
  λ found group. elim (Bool-cases (mem group (group_ids s.entries))) [
    | inl m ↦ eqb_ℤ→eq _ _ (
        not-false
          (filter_found (is_unbalanced s.entries) group (group_ids s.entries) (ok_inj found) m))
    | inr m ↦ no_lines _ group s.entries m ∙ sym (no_lines _ group s.entries m)
  ],
  λ balanced. ap ok (
      filter_none (is_unbalanced s.entries)
        (λ g. rw (balanced g, eqb_ℤ-refl (credits_of g s.entries)) refl) (group_ids s.entries)),
)
