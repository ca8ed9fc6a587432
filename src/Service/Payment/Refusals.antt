-- ===== src/Service/Payment/Refusals.antt =====
-- Capture, Refund and Void that fail have written nothing.
use mini_payment_gateway.Prelude.{
  ℕ, ◌≡◌, refl, sym, subst, ap, ◌∙◌, ◌⊎◌, inl, inr, String, Result, err, from_result, modify, ◌>>=◌,
  ◌>>◌, >>=-eq-err, arith,
}
use mini_payment_gateway.Money.{Amount}
use mini_payment_gateway.Domain.Errors.{Error}
use mini_payment_gateway.Domain.Transaction.{Transaction, void as void_row}
use mini_payment_gateway.Repository.{Store, Query, with_tx, with_tx_rollback, Faults}
use mini_payment_gateway.Repository.Keeps.{Keeps, Keeps-get_by_merchant_and_id}
use mini_payment_gateway.Service.Payment.{
  Env, Answer, Others, on_row, capture_body, capture, refund_body, refund, void, void_body,
}
use mini_payment_gateway.Service.Payment.Checks.{
  Keeps-on_row, Keeps-capture_check, Keeps-refund_check,
}

-- The store is the one from before, or what others made of it.
abbrev pub Untouched : Others → Store → Store → Type 0
Untouched others s s' = (s' ≡ s) ⊎ (s' ≡ others s)

-- The part that the operations share, after a first part that only read.
module _ (faults : Faults) (others : Others) (r : Result Error String)
    (body : Query Transaction) where
  abbrev pub ask_and_write : Query Transaction
  ask_and_write = do from_result r; modify others; with_tx faults body

  pub ask_and_write_err :
      (s : Store) {e : Error} {s' : Store} → ask_and_write s ≡ (err e, s') → Untouched others s s'
  ask_and_write_err s {e} {s'} h = elim (>>=-eq-err _ _ s {e = e} {s' = s'} h) [
    | inl stop ↦ inl (sym (ap (λ p. p.1) stop))
    | inr (ref, t, first, rest) ↦ elim (>>=-eq-err _ _ t {e = e} {s' = s'} rest) [
      | inl stop ↦ absurd (ground arith)
      | inr (u, t', second, last) ↦
          let rolled = with_tx_rollback faults body t' {e = e} (ap (λ p. p.0) last) in
          inr (
            sym (ap (λ p. p.1) last)
            ∙ (rolled ∙ (sym (ap (λ p. p.1) second) ∙ ap others (sym (ap (λ p. p.1) first)))))
    ]
  ]

-- After a first part that only reads.
after_check :
    {A : Type 0} (m : Query A) (f : A → Query Transaction) (others : Others) (s t : Store)
    {e : Error} {s' : Store}
    → t ≡ s
    → Keeps (λ x. x ≡ s) m
    → ((a : A) (u : Store) → u ≡ s → f a u ≡ (err e, s') → Untouched others s s')
    → (m >>= f) t ≡ (err e, s')
    → Untouched others s s'
after_check m f others s t {e} {s'} same keep rest h = elim (>>=-eq-err m f t {e = e} {s' = s'} h) [
  | inl stop ↦ inl (sym (ap (λ p. p.1) stop) ∙ keep t same)
  | inr (a, u, first, last) ↦ rest a u (sym (ap (λ p. p.1) first) ∙ keep t same) last
]

-- The part that the operations share, from a store that is the one from before.
last_part :
    (faults : Faults) (others : Others) (r : Result Error String) (body : Query Transaction)
    (s t : Store) {e : Error} {s' : Store}
    → t ≡ s
    → ask_and_write faults others r body t ≡ (err e, s')
    → Untouched others s s'
last_part faults others r body s t {e} {s'} same h =
    subst (λ x. Untouched others x s') same
      (ask_and_write_err faults others r body t {e = e} {s' = s'} h)

module _ (env : Env) (others : Others) (merchant_id tx_id : ℕ) (s : Store) {e : Error}
    {s' : Store} where
  pub capture_err :
      (answer : Answer) (amount : Amount)
      → capture env answer others merchant_id tx_id amount s ≡ (err e, s')
      → Untouched others s s'
  unfolding capture
  capture_err answer amount =
      after_check _ _ others s s refl
        (Keeps-capture_check (λ t. t ≡ s) env merchant_id tx_id amount)
        λ asked t.
          last_part env.faults others (answer asked.1 asked.0)
            (capture_body env merchant_id tx_id asked.0) s t {e = e} {s' = s'}

  pub refund_err :
      (answer : Answer) (amount : Amount)
      → refund env answer others merchant_id tx_id amount s ≡ (err e, s')
      → Untouched others s s'
  unfolding refund
  refund_err answer amount =
      after_check _ _ others s s refl (Keeps-refund_check (λ t. t ≡ s) env merchant_id tx_id amount)
        λ asked t.
          last_part env.faults others (answer asked.1 asked.0)
            (refund_body env merchant_id tx_id asked.0) s t {e = e} {s' = s'}

  pub void_err :
      (answer : String → Result Error String)
      → void env answer others merchant_id tx_id s ≡ (err e, s')
      → Untouched others s s'
  unfolding void
  void_err answer =
      after_check _ _ others s s refl
        (Keeps-get_by_merchant_and_id (λ t. t ≡ s) env.faults merchant_id tx_id)
        λ txn t same.
          after_check (on_row (void_row env.checked_at) txn) _ others s t same
            (Keeps-on_row (λ t. t ≡ s) (void_row env.checked_at) txn)
            λ u t'.
              last_part env.faults others (answer txn.acquirer_ref)
                (void_body env merchant_id tx_id) s t' {e = e} {s' = s'}
