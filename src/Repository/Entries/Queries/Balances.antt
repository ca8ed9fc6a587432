-- ===== src/Repository/Entries/Queries/Balances.antt =====
-- The balance that the query folds is the one that the domain's fold defines.
use mini_payment_gateway.Prelude.{
  ℕ, ◌≡◌, refl, sym, ap, ap₂, ◌∙◌, ◌⊎◌, Bool, true, false, ◌&&◌, Bool-cases, inl, inr, Option, none,
  some, List, [], ◌∷◌, ok, ==_iff, str_eq, arith,
}
use mini_payment_gateway.Prelude.Int.{
  ℤ, pos, ◌+ℤ◌, ◌≤ℤ◌, +ℤ_parts, +ℤ_assoc, +ℤ-zero, zero-+ℤ, parts_disjoint,
}
use mini_payment_gateway.Prelude.Int64.{InRange, add64, add64_exact}
use mini_payment_gateway.Prelude.Lists.{All}
use mini_payment_gateway.Money.{Currency}
use mini_payment_gateway.Domain.Ledger.{
  Direction, LedgerEntry, Balance, account_eq, is_debit, merchant_payable_account, book, book_all,
  compute_balance,
}
use mini_payment_gateway.Repository.{Store}
use mini_payment_gateway.Repository.Books.{is_credit}
use mini_payment_gateway.Repository.Entries.Appends.{sum_where}
use mini_payment_gateway.Repository.Entries.Listing.{belongs_to}
use mini_payment_gateway.Repository.Entries.Queries.{
  of_balance, balance_debits, balance_credits, balance, fits,
}

-- What the constraints of the table say of a line, and that a line on a merchant's account names the
-- merchant.
abbrev pub IsBooked : ℕ → LedgerEntry → Type 0
IsBooked m e =
    (pos 0 ≤ℤ e.amount)
    × ((is_debit e.direction ≡ true) ⊎ (is_credit e.direction ≡ true))
    × (account_eq e.account (merchant_payable_account m) ≡ true → e.merchant_id ≡ some m)

sum_where-nonneg :
    (m : ℕ) (p : LedgerEntry → Bool) (es : List LedgerEntry)
    → All (IsBooked m) es
    → pos 0 ≤ℤ sum_where p es
unfolding sum_where
sum_where-nonneg m p [] h = omega arith
sum_where-nonneg m p (e ∷ es) h = elim (Bool-cases (p e)) [
  | inl k ↦ rw k (
      let ih = sum_where-nonneg m p es h.1 in
      let least = h.0.0 in ground (arith, +ℤ_parts e.amount (sum_where p es)))
  | inr k ↦ rw (k, zero-+ℤ (sum_where p es)) (sum_where-nonneg m p es h.1)
]

-- A part of a sum that fits.
part_fits :
    (d a r : ℤ) → pos 0 ≤ℤ d → pos 0 ≤ℤ a → pos 0 ≤ℤ r → InRange (d +ℤ (a +ℤ r)) → InRange (d +ℤ a)
part_fits d a r hd ha hr h = ground (
  arith,
  +ℤ_parts d a,
  +ℤ_parts a r,
  +ℤ_parts d (a +ℤ r),
  parts_disjoint (d +ℤ a),
  parts_disjoint (d +ℤ (a +ℤ r)),
)

sum-nonneg : (d a : ℤ) → pos 0 ≤ℤ d → pos 0 ≤ℤ a → pos 0 ≤ℤ d +ℤ a
sum-nonneg d a hd ha = ground (arith, +ℤ_parts d a)

debit_not_credit : (d : Direction) → is_debit d ≡ true → is_credit d ≡ false
debit_not_credit Direction.debit h = refl
debit_not_credit Direction.credit h = cc
debit_not_credit Direction.other h = refl

credit_not_debit : (d : Direction) → is_credit d ≡ true → is_debit d ≡ false
credit_not_debit Direction.debit h = cc
credit_not_debit Direction.credit h = refl
credit_not_debit Direction.other h = refl

and_false : (a b : Bool) → (a && false) && b ≡ false
and_false true b = refl
and_false false b = refl

belongs : (m : ℕ) (o : Option ℕ) → o ≡ some m → belongs_to m o ≡ true
belongs m o h = rw h ((==_iff m m).1 refl)

module _ (m : ℕ) (c : Currency) where
  abbrev made : ℤ → ℤ → Balance
  made d k = record { account = merchant_payable_account m; currency = c; debits = d; credits = k }

  abbrev on_debit : LedgerEntry → Bool
  on_debit e = of_balance m c e && is_debit e.direction

  abbrev on_credit : LedgerEntry → Bool
  on_credit e = of_balance m c e && is_credit e.direction

  -- What a round of the fold does is what the two filters say.
  abbrev Step : LedgerEntry → ℤ → ℤ → Type 0
  Step e d k =
      ((book e (made d k) ≡ made d k) × (on_debit e ≡ false) × (on_credit e ≡ false))
      ⊎ ((book e (made d k) ≡ made (add64 d e.amount) k)
          × (on_debit e ≡ true)
          × (on_credit e ≡ false))
      ⊎ ((book e (made d k) ≡ made d (add64 k e.amount))
          × (on_debit e ≡ false)
          × (on_credit e ≡ true))

  -- A line on another account, or in another currency.
  skipped :
      (e : LedgerEntry) (d k : ℤ)
      → (account_eq e.account (merchant_payable_account m) && str_eq e.currency c) ≡ false
      → Step e d k
  unfolding book
  skipped e d k h = inl (
    elim (Bool-cases (account_eq e.account (merchant_payable_account m))) [
      | inl a ↦ rw (a, rw a at h) refl
      | inr a ↦ rw a refl
    ],
    rw h (and_false _ _),
    rw h (and_false _ _),
  )

  counted :
      (e : LedgerEntry) (d k : ℤ)
      → IsBooked m e
      → account_eq e.account (merchant_payable_account m) ≡ true
      → str_eq e.currency c ≡ true
      → Step e d k
  unfolding book
  counted e d k h a b =
      let own = belongs m e.merchant_id (h.2 a) in
      elim h.1 [
        | inl x ↦ inr (
            inl (
              rw (a, b, x) refl,
              rw (a, b, own, x) refl,
              rw (a, b, own, debit_not_credit e.direction x) refl,
            ))
        | inr x ↦ inr (
            inr (
              rw (a, b, credit_not_debit e.direction x) refl,
              rw (a, b, own, credit_not_debit e.direction x) refl,
              rw (a, b, own, x) refl,
            ))
      ]

  book-Step : (e : LedgerEntry) (d k : ℤ) → IsBooked m e → Step e d k
  book-Step e d k h = elim (Bool-cases (account_eq e.account (merchant_payable_account m))) [
    | inl a ↦ elim (Bool-cases (str_eq e.currency c)) [
      | inl b ↦ counted e d k h a b
      | inr b ↦ skipped e d k (rw (a, b) refl)
    ]
    | inr a ↦ skipped e d k (rw a refl)
  ]

  book_all-sums :
      (es : List LedgerEntry) (d k : ℤ)
      → All (IsBooked m) es
      → pos 0 ≤ℤ d
      → pos 0 ≤ℤ k
      → InRange (d +ℤ sum_where on_debit es)
      → InRange (k +ℤ sum_where on_credit es)
      → book_all es (made d k) ≡ made (d +ℤ sum_where on_debit es) (k +ℤ sum_where on_credit es)
  unfolding book_all sum_where
  book_all-sums [] d k h hd hk rd rk = ap₂ made (sym (+ℤ-zero d)) (sym (+ℤ-zero k))
  book_all-sums (e ∷ es) d k h hd hk rd rk = elim (book-Step e d k h.0) [
    | inl (same, nd, nk) ↦
        let rd' : InRange (d +ℤ sum_where on_debit es) = rw (nd, zero-+ℤ _) at rd in
        let rk' : InRange (k +ℤ sum_where on_credit es) = rw (nk, zero-+ℤ _) at rk in
        rw (same, nd, nk, zero-+ℤ (sum_where on_debit es), zero-+ℤ (sum_where on_credit es))
          (book_all-sums es d k h.1 hd hk rd' rk')
    | inr (inl (same, yd, nk)) ↦
        let rest = sum_where-nonneg m on_debit es h.1 in
        let rd' : InRange (d +ℤ (e.amount +ℤ sum_where on_debit es)) = rw yd at rd in
        let rk' : InRange (k +ℤ sum_where on_credit es) = rw (nk, zero-+ℤ _) at rk in
        let exact =
          add64_exact d e.amount (part_fits d e.amount (sum_where on_debit es) hd h.0.0 rest rd') in
        let ih =
          book_all-sums es (d +ℤ e.amount) k h.1 (sum-nonneg d e.amount hd h.0.0) hk
            (rw (+ℤ_assoc d e.amount (sum_where on_debit es)) rd') rk' in
        rw (same, yd, nk, exact, zero-+ℤ (sum_where on_credit es))
          (ih ∙ ap (λ x. made x (k +ℤ sum_where on_credit es)) (+ℤ_assoc d e.amount _))
    | inr (inr (same, nd, yk)) ↦
        let rest = sum_where-nonneg m on_credit es h.1 in
        let rk' : InRange (k +ℤ (e.amount +ℤ sum_where on_credit es)) = rw yk at rk in
        let rd' : InRange (d +ℤ sum_where on_debit es) = rw (nd, zero-+ℤ _) at rd in
        let exact =
          add64_exact k e.amount
            (part_fits k e.amount (sum_where on_credit es) hk h.0.0 rest rk') in
        let ih =
          book_all-sums es d (k +ℤ e.amount) h.1 hd (sum-nonneg k e.amount hk h.0.0) rd'
            (rw (+ℤ_assoc k e.amount (sum_where on_credit es)) rk') in
        rw (same, nd, yk, exact, zero-+ℤ (sum_where on_debit es))
          (ih ∙ ap (made (d +ℤ sum_where on_debit es)) (+ℤ_assoc k e.amount _))
  ]

fits-InRange : (a : ℤ) → InRange a → fits a ≡ true
fits-InRange a h = ground arith

-- On a journal whose amounts are not negative, whose directions are debit or credit, and whose
-- lines on the merchant's account name the merchant, the query of Balance gives what ComputeBalance
-- folds over the whole journal, if both sums fit an int64.
pub balance-compute_balance :
    (m : ℕ) (c : Currency) (s : Store)
    → All (IsBooked m) s.entries
    → InRange (balance_debits m c s.entries)
    → InRange (balance_credits m c s.entries)
    → balance none m c s ≡ ok (compute_balance (merchant_payable_account m) c s.entries)
unfolding balance compute_balance
balance-compute_balance m c s h rd rk =
    rw (fits-InRange _ rd, fits-InRange _ rk)
      (ap ok (
        sym (
          book_all-sums m c s.entries (pos 0) (pos 0) h (omega arith) (omega arith)
            (rw (zero-+ℤ (balance_debits m c s.entries)) rd)
            (rw (zero-+ℤ (balance_credits m c s.entries)) rk)
          ∙ ap₂ (made m c) (zero-+ℤ _) (zero-+ℤ _))))
