-- ===== src/Repository/Transactions/Rows.antt =====
-- What the statements on the transactions table read and write.
use mini_payment_gateway.Prelude.{
  ℕ, suc, ◌≡◌, refl, ap, sym, subst, ◌∙◌, ==_iff, inl, inr, true, false, none, some, List, [], ◌∷◌,
  ◌++◌, ok, err, ◌==◌, Option-cases, Bool-cases, if◌then◌else◌, arith,
}
use mini_payment_gateway.Prelude.Lists.{find, find-map}
use mini_payment_gateway.Domain.Errors.{Error}
use mini_payment_gateway.Domain.Transaction.{Time, Transaction}
use mini_payment_gateway.Repository.{Store, Faults}
use mini_payment_gateway.Repository.Transactions.{
  find_id, has_id, is_version_of, written, write_row, write_rows, create, inserted, get_for_update,
  update,
}

pub get_for_update_ok :
    (faults : Faults) (id : ℕ) (s : Store) {t : Transaction} {s' : Store}
    → get_for_update faults id s ≡ (ok t, s')
    → (find_id id s.transactions ≡ some t) × (s' ≡ s)
unfolding get_for_update
get_for_update_ok faults id s h = ground arith

-- The transaction in memory after an update of the row, and the store.
abbrev pub saved : Transaction → Time → Transaction → Transaction
saved t now row = record t { version = suc row.version; updated_at = now }

abbrev pub with_rows : Store → List Transaction → Store
with_rows s rows = record s { transactions = rows }

pub update_ok :
    (faults : Faults) (t : Transaction) (now : Time) (s : Store) {t' : Transaction} {s' : Store}
    → update faults t now s ≡ (ok t', s')
    → (row : Transaction) × (find (is_version_of t) s.transactions ≡ some row)
      × (t' ≡ saved t now row)
      × (s' ≡ with_rows s (write_rows t now s.transactions))
unfolding update
update_ok faults t now s h = elim (Option-cases (find (is_version_of t) s.transactions)) [
  | inl e ↦ absurd (ground arith)
  | inr (row, e) ↦ (row, e, ground arith, ground arith)
]

-- A row that was found by its id has that id.
pub find_id-has_id :
    (id : ℕ) (rows : List Transaction) {t : Transaction} → find_id id rows ≡ some t → t.id ≡ id
find_id-has_id id [] h = cc
find_id-has_id id (row ∷ rows) {t} h = ground (arith, find_id-has_id id rows {t = t})

-- The first row of an id is the one that an update at its version finds.
pub find-is_version_of :
    (t : Transaction) (rows : List Transaction) {fresh : Transaction}
    → find_id t.id rows ≡ some fresh
    → t.version ≡ fresh.version
    → find (is_version_of t) rows ≡ some fresh
find-is_version_of t [] h v = cc
find-is_version_of t (row ∷ rows) {fresh} h v =
    ground (arith, find-is_version_of t rows {fresh = fresh})

pub write_row-has_id :
    (t : Transaction) (now : Time) (id : ℕ) (row : Transaction)
    → has_id id (write_row t now row) ≡ has_id id row
write_row-has_id t now id row = elim (Bool-cases (is_version_of t row)) [
  | inl e ↦ rw e refl
  | inr e ↦ rw e refl
]

write_row-fresh :
    (t : Transaction) (now : Time) (fresh : Transaction)
    → fresh.id ≡ t.id
    → t.version ≡ fresh.version
    → write_row t now fresh ≡ written t now fresh
write_row-fresh t now fresh i v = let e : is_version_of t fresh ≡ true = ground arith in rw e refl

write_row-other :
    (t : Transaction) (now : Time) (row : Transaction)
    → (row.id == t.id) ≡ false
    → write_row t now row ≡ row
write_row-other t now row ne = let e : is_version_of t row ≡ false = ground arith in rw e refl

-- After an update the row of its id is the written one, and every other row is what it was.
pub find_id-write_rows :
    (t : Transaction) (now : Time) (id : ℕ) (rows : List Transaction) {fresh : Transaction}
    → find_id t.id rows ≡ some fresh
    → t.version ≡ fresh.version
    → find_id id (write_rows t now rows)
      ≡ (if id == t.id then some (written t now fresh) else find_id id rows)
find_id-write_rows t now id rows {fresh} h v =
    find-map (has_id id) (write_row t now) (write_row-has_id t now id) rows
    ∙ elim (Bool-cases (id == t.id)) [
      | inl e ↦ rw e (
          rw ((==_iff id t.id).0 e, h)
            (ap some (write_row-fresh t now fresh (find_id-has_id t.id rows h) v)))
      | inr e ↦ rw e (elim (Option-cases (find_id id rows)) [
        | inl q ↦ rw q refl
        | inr (row, q) ↦
            rw q (ap some (write_row-other t now row (rw (find_id-has_id id rows q) e)))
      ])
    ]

pub find_id_self :
    (id : ℕ) (rows : List Transaction) {t : Transaction}
    → find_id id rows ≡ some t
    → find_id t.id rows ≡ some t
find_id_self id rows {t} h = subst (λ k. find_id k rows ≡ some t) (sym (find_id-has_id id rows h)) h

-- A row that is inserted is found by its id, and every other id finds what it did.
pub find_id-insert :
    (id : ℕ) (rows : List Transaction) (t : Transaction)
    → find_id t.id rows ≡ none
    → find_id id (rows ++ t ∷ []) ≡ (if t.id == id then some t else find_id id rows)
find_id-insert id [] t h = refl
find_id-insert id (row ∷ rows) t h = ground (arith, find_id-insert id rows t)

-- An INSERT that succeeds appends the row, whose id was free.
pub create_ok :
    (faults : Faults) (t : Transaction) (s : Store) {s' : Store}
    → create faults t s ≡ (ok tt, s')
    → (find_id t.id s.transactions ≡ none) × (s' ≡ with_rows s (s.transactions ++ inserted t ∷ []))
unfolding create
create_ok faults t s h = ground arith

pub create_refused :
    (faults : Faults) (t : Transaction) (s : Store) {e : Error}
    → (create faults t s).0 ≡ err e
    → (create faults t s).1 ≡ s
unfolding create
create_refused faults t s h = ground arith
