-- ===== src/Domain/Ledger/Validation.antt =====
-- `EntryGroup.Validate` against the invariant that its comment states.
use mini_payment_gateway.Prelude.{
  ◌≡◌, refl, sym, subst, ◌↔◌, ◌≢◌, List, [], ◌∷◌, inl, inr, Result-cases, ok, eq_iff, arith,
}
use mini_payment_gateway.Prelude.Int.{pos, ◌≤ℤ◌, eqb_ℤ→eq}
use mini_payment_gateway.Prelude.Lists.{All}
use mini_payment_gateway.Money.{Amount, Currency}
use mini_payment_gateway.Domain.Ledger.{
  Direction, LedgerEntry, EntryGroup, add_leg, add_legs, check_balance, validate_entries, validate,
  add_totals, totals,
}

-- A leg that a group in the given currency may have.
abbrev pub IsLeg : Currency → LedgerEntry → Type 0
IsLeg currency e = (pos 1 ≤ℤ e.amount) × (e.currency ≡ currency) × (e.direction ≢ Direction.other)

add_leg_ok :
    (c : Currency) (e : LedgerEntry) (sums : Amount × Amount) {sums' : Amount × Amount}
    → add_leg c e sums ≡ ok sums'
    → IsLeg c e × (add_totals (e ∷ []) sums ≡ sums')
unfolding add_leg add_totals
add_leg_ok c e (d, k) h = ground (arith, eq_iff e.currency c)

add_leg_of_IsLeg :
    (c : Currency) (e : LedgerEntry) (sums : Amount × Amount)
    → IsLeg c e
    → add_leg c e sums ≡ ok (add_totals (e ∷ []) sums)
unfolding add_leg add_totals
add_leg_of_IsLeg c e (d, k) h = ground (arith, eq_iff e.currency c)

add_legs_ok :
    (c : Currency) (es : List LedgerEntry) (sums : Amount × Amount) {sums' : Amount × Amount}
    → add_legs c es sums ≡ ok sums'
    → All (IsLeg c) es × (add_totals es sums ≡ sums')
unfolding add_legs add_totals
add_legs_ok c [] sums h = ground arith
add_legs_ok c (e ∷ es) (d, k) {sums' = s'} h = elim (Result-cases (add_leg c e (d, k))) [
  | inl (s, q) ↦ ground (arith, add_leg_ok c e (d, k) {sums' = s}, add_legs_ok c es s {sums' = s'})
  | inr (x, q) ↦ ground arith
]

add_legs_of_IsLeg :
    (c : Currency) (es : List LedgerEntry) (sums : Amount × Amount)
    → All (IsLeg c) es
    → add_legs c es sums ≡ ok (add_totals es sums)
unfolding add_legs add_totals
add_legs_of_IsLeg c [] sums h = refl
add_legs_of_IsLeg c (e ∷ es) (d, k) h =
    rw (add_leg_of_IsLeg c e (d, k) h.0, add_legs) (add_legs_of_IsLeg c es _ h.1)

module _ (e f : LedgerEntry) (es : List LedgerEntry) where
  balanced : (d k : Amount) → check_balance (ok (d, k)) ≡ ok tt → d ≡ k
  balanced d k h = eqb_ℤ→eq d k (ground arith)

  entries_sound :
      check_balance (add_legs e.currency (e ∷ f ∷ es) (pos 0, pos 0)) ≡ ok tt
      → All (IsLeg e.currency) (e ∷ f ∷ es)
        × ((add_totals (e ∷ f ∷ es) (pos 0, pos 0)).0 ≡ (add_totals (e ∷ f ∷ es) (pos 0, pos 0)).1)
  entries_sound h = elim (Result-cases (add_legs e.currency (e ∷ f ∷ es) (pos 0, pos 0))) [
    | inl (s, q) ↦
        let (legs, sums) = add_legs_ok e.currency (e ∷ f ∷ es) (pos 0, pos 0) q in
        (legs, rw sums (balanced s.0 s.1 (rw q at h)))
    | inr (x, q) ↦ absurd (ground arith)
  ]

  entries_complete :
      All (IsLeg e.currency) (e ∷ f ∷ es)
      → (add_totals (e ∷ f ∷ es) (pos 0, pos 0)).0 ≡ (add_totals (e ∷ f ∷ es) (pos 0, pos 0)).1
      → check_balance (add_legs e.currency (e ∷ f ∷ es) (pos 0, pos 0)) ≡ ok tt
  entries_complete legs same =
      rw (add_legs_of_IsLeg e.currency (e ∷ f ∷ es) (pos 0, pos 0) legs) (ground arith)

-- Validate accepts a group of at least two entries exactly when each entry has a positive amount,
-- the first entry's currency and a direction that is debit or credit, and the totals, summed as
-- int64, are equal.
pub validate_iff :
    (g : EntryGroup) (e f : LedgerEntry) (es : List LedgerEntry)
    → g.entries ≡ e ∷ f ∷ es
    → (validate g ≡ ok tt) ↔ (All (IsLeg e.currency) g.entries × ((totals g).0 ≡ (totals g).1))
unfolding validate totals
validate_iff g e f es shape =
    subst
      (λ l. (validate_entries l ≡ ok tt) ↔ (
        All (IsLeg e.currency) l
        × ((add_totals l (pos 0, pos 0)).0 ≡ (add_totals l (pos 0, pos 0)).1)))
      (sym shape) (entries_sound e f es, λ h. entries_complete e f es h.0 h.1)
