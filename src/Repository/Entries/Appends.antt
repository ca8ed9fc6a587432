-- ===== src/Repository/Entries/Appends.antt =====
-- What the journal holds after a group is inserted, and the sums over it.
use mini_payment_gateway.Prelude.{
  ℕ, suc, ◌≡◌, refl, sym, ◌∙◌, ap, Bool, List, [], ◌∷◌, ◌++◌, ok, >>=-eq-ok, >>=_ok, none,
  from_result, if◌then◌else◌, arith,
}
use mathlib.Core.List.{append-nil, append_assoc}
use mini_payment_gateway.Prelude.Int.{ℤ, pos, ◌+ℤ◌, +ℤ_assoc, zero-+ℤ}
use mini_payment_gateway.Domain.Ledger.{LedgerEntry, EntryGroup, validate}
use mini_payment_gateway.Repository.{Store, Statement, Faults}
use mini_payment_gateway.Repository.Entries.{insert_entry, insert_entries, insert_group}

-- The lines as the sequence numbers them.
abbrev pub numbered : ℕ → List LedgerEntry → List LedgerEntry
numbered n [] = []
numbered n (e ∷ es) = record e { id = suc n } ∷ numbered (suc n) es

abbrev pub advanced : ℕ → List LedgerEntry → ℕ
advanced n [] = n
advanced n (e ∷ es) = advanced (suc n) es

abbrev pub with_entries : Store → List LedgerEntry → Store
with_entries s es = record s {
  entries = s.entries ++ numbered s.entry_seq es;
  entry_seq = advanced s.entry_seq es;
}

with_entries_twice :
    (s : Store) (e : LedgerEntry) (es : List LedgerEntry)
    → with_entries (with_entries s (e ∷ [])) es ≡ with_entries s (e ∷ es)
with_entries_twice s e es = rw append_assoc refl

insert_entry_ok :
    (faults : Faults) (e : LedgerEntry) (s : Store) {s' : Store}
    → insert_entry faults e s ≡ (ok tt, s')
    → s' ≡ with_entries s (e ∷ [])
unfolding insert_entry
insert_entry_ok faults e s h = ground arith

insert_entries_ok :
    (faults : Faults) (es : List LedgerEntry) (s : Store) {s' : Store}
    → insert_entries faults es s ≡ (ok tt, s')
    → s' ≡ with_entries s es
unfolding insert_entries
insert_entries_ok faults [] s h = rw append-nil (ground arith)
insert_entries_ok faults (e ∷ es) s h =
    let (u, t, first, rest) =
      >>=-eq-ok (insert_entry faults e) (λ _. insert_entries faults es) s h in
    insert_entries_ok faults es t rest
    ∙ ap (λ x. with_entries x es) (insert_entry_ok faults e s first)
    ∙ with_entries_twice s e es

pub insert_group_ok :
    (faults : Faults) (g : EntryGroup) (s : Store) {s' : Store}
    → insert_group faults g s ≡ (ok tt, s')
    → (validate g ≡ ok tt) × (s' ≡ with_entries s g.entries)
unfolding insert_group
insert_group_ok faults g s h =
    let (u, t, first, rest) =
      >>=-eq-ok (from_result (validate g)) (λ _. insert_entries faults g.entries) s h in
    (
      ground arith,
      insert_entries_ok faults g.entries t rest ∙ ap (λ x. with_entries x g.entries) (ground arith),
    )

-- Where no statement fails the lines go in, and a valid group with them.
module _ (faults : Faults) (none_fail : (k : Statement) → faults k ≡ none) where
  insert_entry_done :
      (e : LedgerEntry) (s : Store) → insert_entry faults e s ≡ (ok tt, with_entries s (e ∷ []))
  unfolding insert_entry
  insert_entry_done e s =
      let f = none_fail (Statement.insert_entry (suc s.entry_seq)) in ground arith

  insert_entries_done :
      (es : List LedgerEntry) (s : Store) → insert_entries faults es s ≡ (ok tt, with_entries s es)
  unfolding insert_entries
  insert_entries_done [] s = rw append-nil refl
  insert_entries_done (e ∷ es) s =
      >>=_ok (insert_entry faults e) (λ _. insert_entries faults es) s (insert_entry_done e s)
      ∙ insert_entries_done es (with_entries s (e ∷ []))
      ∙ ap (λ x. (ok tt, x)) (with_entries_twice s e es)

  pub insert_group_done :
      (g : EntryGroup) (s : Store)
      → validate g ≡ ok tt
      → insert_group faults g s ≡ (ok tt, with_entries s g.entries)
  unfolding insert_group
  insert_group_done g s valid =
      >>=_ok (from_result (validate g)) (λ _. insert_entries faults g.entries) s
        (ap (λ r. (r, s)) valid)
      ∙ insert_entries_done g.entries s

-- The sum of the amounts of the lines that pass a test.
unfoldable pub sum_where : (LedgerEntry → Bool) → List LedgerEntry → ℤ
sum_where p [] = pos 0
sum_where p (e ∷ es) = (if p e then e.amount else pos 0) +ℤ sum_where p es

pub sum_where-append :
    (p : LedgerEntry → Bool) (es fs : List LedgerEntry)
    → sum_where p (es ++ fs) ≡ sum_where p es +ℤ sum_where p fs
unfolding sum_where
sum_where-append p [] fs = sym (zero-+ℤ _)
sum_where-append p (e ∷ es) fs =
    ap (λ x. (if p e then e.amount else pos 0) +ℤ x) (sum_where-append p es fs)
    ∙ sym (+ℤ_assoc _ _ _)

-- A test that does not read the line's number.
abbrev pub IsStable : (LedgerEntry → Bool) → Type 0
IsStable p = (e : LedgerEntry) (n : ℕ) → p (record e { id = n }) ≡ p e

pub sum_where-numbered :
    (p : LedgerEntry → Bool)
    → IsStable p
    → (n : ℕ) (es : List LedgerEntry) → sum_where p (numbered n es) ≡ sum_where p es
unfolding sum_where
sum_where-numbered p stable n [] = refl
sum_where-numbered p stable n (e ∷ es) =
    rw (stable e (suc n), sum_where-numbered p stable (suc n) es) refl

-- What an insert of lines adds to a sum over the journal.
pub sum_where-with_entries :
    (p : LedgerEntry → Bool)
    → IsStable p
    → (s : Store) (es : List LedgerEntry)
    → sum_where p (with_entries s es).entries ≡ sum_where p s.entries +ℤ sum_where p es
sum_where-with_entries p stable s es =
    sum_where-append p s.entries (numbered s.entry_seq es)
    ∙ ap (λ x. sum_where p s.entries +ℤ x) (sum_where-numbered p stable s.entry_seq es)
