-- ===== src/Repository/Entries/Aggregates/Rows.antt =====
-- Sums over the journal, row by row of the transactions table.
use mini_payment_gateway.Prelude.{
  ◌≡◌, ◌≢◌, refl, sym, ap, ◌∙◌, subst, inl, inr, Bool, true, false, ◌&&◌, Bool-cases, Option, none,
  some, List, [], ◌∷◌, ◌==◌, ==_iff, if◌then◌else◌, arith,
}
use mini_payment_gateway.Prelude.Int.{pos, ◌+ℤ◌, zero-+ℤ, int_laws}
use mini_payment_gateway.Prelude.Lists.{filter, All}
use mini_payment_gateway.Prelude.Sums.{sum_of}
use mini_payment_gateway.Domain.Transaction.{Transaction}
use mini_payment_gateway.Domain.Ledger.{LedgerEntry}
use mini_payment_gateway.Repository.Books.{of_transaction}
use mini_payment_gateway.Repository.Entries.Appends.{sum_where}
use mini_payment_gateway.Repository.Transactions.{find_id}
use mini_payment_gateway.Repository.Transactions.Listing.Order.{IsKeyed}

pub sum_where-none :
    (p : LedgerEntry → Bool)
    → ((e : LedgerEntry) → p e ≡ false)
    → (es : List LedgerEntry) → sum_where p es ≡ pos 0
unfolding sum_where
sum_where-none p h [] = refl
sum_where-none p h (e ∷ es) = rw (h e, sum_where-none p h es) (zero-+ℤ (pos 0))

pub sum_where-same :
    (p q : LedgerEntry → Bool) (es : List LedgerEntry)
    → All (λ e. p e ≡ q e) es
    → sum_where p es ≡ sum_where q es
unfolding sum_where
sum_where-same p q [] h = refl
sum_where-same p q (e ∷ es) (h, hs) = rw (h, sum_where-same p q es hs) refl

pub sum_where-filter :
    (w p : LedgerEntry → Bool) (es : List LedgerEntry)
    → sum_where p (filter w es) ≡ sum_where (λ e. w e && p e) es
unfolding sum_where
sum_where-filter w p [] = refl
sum_where-filter w p (e ∷ es) = elim (Bool-cases (w e)) [
  | inl h ↦ rw h (rw (sum_where-filter w p es) refl)
  | inr h ↦ rw h (sum_where-filter w p es ∙ sym (zero-+ℤ _))
]

-- A test that one of two exclusive tests passes.
abbrev IsEither : (p q r : LedgerEntry → Bool) → LedgerEntry → Type 0
IsEither p q r e = ((q e ≡ true) → (p e ≡ true) × (r e ≡ false)) × ((q e ≡ false) → p e ≡ r e)

sum_where-either :
    (p q r : LedgerEntry → Bool)
    → ((e : LedgerEntry) → IsEither p q r e)
    → (es : List LedgerEntry) → sum_where p es ≡ sum_where q es +ℤ sum_where r es
unfolding sum_where
sum_where-either p q r h [] = sym (zero-+ℤ (pos 0))
sum_where-either p q r h (e ∷ es) =
    let ih = sum_where-either p q r h es in
    elim (Bool-cases (q e)) [
      | inl k ↦ let (a, b) = (h e).0 k in rw (k, a, b, ih) (omega (int_laws))
      | inr k ↦ rw (k, (h e).1 k, ih) (omega (int_laws))
    ]

-- A test on the row of a line.
abbrev pub row_passes : (Transaction → Bool) → Option Transaction → Bool
row_passes p none = false
row_passes p (some t) = p t

abbrev pub by_row :
    (Transaction → Bool) → (LedgerEntry → Bool) → List Transaction → LedgerEntry → Bool
by_row p leg ts e = row_passes p (find_id e.transaction_id ts) && leg e

module _ (p : Transaction → Bool) (leg : LedgerEntry → Bool) where
  -- The lines of a row that is not in the rest of the table, and those of the rest.
  by_row-IsEither :
      (t : Transaction) (ts : List Transaction)
      → find_id t.id ts ≡ none
      → (e : LedgerEntry)
      → IsEither (by_row p leg (t ∷ ts)) (λ e. p t && of_transaction t.id leg e) (by_row p leg ts) e
  by_row-IsEither t ts free e = elim (Bool-cases (t.id == e.transaction_id)) [
    | inl h ↦
        let same = (==_iff t.id e.transaction_id).0 h in
        let gone : find_id e.transaction_id ts ≡ none =
          subst (λ i. find_id i ts ≡ none) same free in
        let back : (e.transaction_id == t.id) ≡ true = ground arith in
        rw (h, back, gone) (λ k. (k, refl), λ k. k)
    | inr h ↦
        let back : (e.transaction_id == t.id) ≡ false = ground arith in
        rw (h, back) (λ k. absurd (ground arith), λ k. refl)
  ]

  lines_of :
      (t : Transaction) (es : List LedgerEntry)
      → sum_where (λ e. p t && of_transaction t.id leg e) es
        ≡ (if p t then sum_where (of_transaction t.id leg) es else pos 0)
  lines_of t es = elim (Bool-cases (p t)) [
    | inl h ↦ rw h refl
    | inr h ↦ rw h (sum_where-none _ (λ e. refl) es)
  ]

  absent :
      (t : Transaction) (ts : List Transaction) → All (λ y. y.id ≢ t.id) ts → find_id t.id ts ≡ none
  absent t [] h = refl
  absent t (x ∷ xs) h = ground (arith, h.0, absent t xs h.1)

  -- The lines whose rows pass a test, row by row.
  pub sum_where-by_row :
      (ts : List Transaction) (es : List LedgerEntry)
      → IsKeyed ts
      → sum_where (by_row p leg ts) es
        ≡ sum_of (λ t. if p t then sum_where (of_transaction t.id leg) es else pos 0) ts
  unfolding sum_of
  sum_where-by_row [] es h = sum_where-none _ (λ e. refl) es
  sum_where-by_row (t ∷ ts) es h =
      sum_where-either (by_row p leg (t ∷ ts)) (λ e. p t && of_transaction t.id leg e)
        (by_row p leg ts) (by_row-IsEither t ts (absent t ts h.0)) es
      ∙ (ap (λ r. r +ℤ sum_where (by_row p leg ts) es) (lines_of t es)
          ∙ ap (λ r. (if p t then sum_where (of_transaction t.id leg) es else pos 0) +ℤ r)
              (sum_where-by_row ts es h.1))
