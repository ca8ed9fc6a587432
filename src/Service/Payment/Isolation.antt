-- ===== src/Service/Payment/Isolation.antt =====
-- Capture, Refund and Void leave the rows of other merchants alone.
use mini_payment_gateway.Prelude.{
  ℕ, ◌≡◌, ◌≢◌, sym, ap, ◌∙◌, subst, some, String, Result, ok, List, modify, >>=_elim, arith,
}
use mathlib.Core.Option
use mini_payment_gateway.Prelude.Lists.{find-map, some_inj}
use mini_payment_gateway.Money.{Amount}
use mini_payment_gateway.Domain.Errors.{Error}
use mini_payment_gateway.Domain.Transaction.{
  Time, Transaction, capture as capture_row, refund as refund_row, void as void_row,
}
use mini_payment_gateway.Domain.Webhook.{WebhookEvent}
use mini_payment_gateway.Repository.{Store}
use mini_payment_gateway.Repository.Keeps.{
  Keeps, Keeps-seq, Keeps-with_tx, Keeps-get_by_merchant_and_id,
}
use mini_payment_gateway.Repository.Transactions.{has_id, find_id, write_row, write_rows}
use mini_payment_gateway.Repository.Transactions.Rows.{
  find_id-has_id, write_row-has_id, get_for_update_ok,
}
use mini_payment_gateway.Service.Payment.{Env, Answer, Others, capture, refund, void, void_body}
use mini_payment_gateway.Service.Payment.Checks.{
  Keeps-on_row, Keeps-capture_check, Keeps-refund_check,
}
use mini_payment_gateway.Service.Payment.Captures.{capture_body_ok}
use mini_payment_gateway.Service.Payment.Refunds.{refund_body_ok}
use mini_payment_gateway.Service.Payment.Writes.{write_and_notify_ok, on_row_ok, owned_by_ok}

-- The row of an id is there as it was.
abbrev pub HasRow : ℕ → Transaction → Store → Type 0
HasRow id row s = find_id id s.transactions ≡ some row

-- A write of a row of another id.
write_rows-keeps :
    (t : Transaction) (now : Time) (id : ℕ) (rows : List Transaction) {row : Transaction}
    → find_id id rows ≡ some row
    → row.id ≢ t.id
    → find_id id (write_rows t now rows) ≡ some row
write_rows-keeps t now id rows {row} h n =
    find-map (has_id id) (write_row t now) (write_row-has_id t now id) rows
    ∙ ap (Option.map (write_row t now)) h
    ∙ ap some (ground arith)

-- The methods of a transaction keep its id.
capture_same :
    (amount : Amount) (now : Time) (t : Transaction) → (capture_row amount now t).1.id ≡ t.id
unfolding capture_row
capture_same amount now t = ground arith

refund_same :
    (amount : Amount) (now : Time) (t : Transaction) → (refund_row amount now t).1.id ≡ t.id
unfolding refund_row
refund_same amount now t = ground arith

void_same : (now : Time) (t : Transaction) → (void_row now t).1.id ≡ t.id
unfolding void_row
void_same now t = ground arith

module _ (id : ℕ) (row : Transaction) (merchant_id : ℕ)
    (foreign : row.merchant_id ≢ merchant_id) where
  -- What a database transaction writes for a row of the merchant.
  posted-HasRow :
      (tx_id : ℕ) (s s' : Store) (fresh moved : Transaction)
      → HasRow id row s
      → find_id tx_id s.transactions ≡ some fresh
      → fresh.merchant_id ≡ merchant_id
      → moved.id ≡ fresh.id
      → (now : Time) → s'.transactions ≡ write_rows moved now s.transactions
      → HasRow id row s'
  posted-HasRow tx_id s s' fresh moved h found owned same now e =
      subst (λ rows. find_id id rows ≡ some row) (sym e)
        (write_rows-keeps moved now id s.transactions {row = row} h λ clash.
          let tx_same = find_id-has_id tx_id s.transactions {t = fresh} found in
          let id_same = find_id-has_id id s.transactions {t = row} h in
          let one : row ≡ fresh = some_inj (
            sym h
            ∙ subst (λ k. find_id k s.transactions ≡ some fresh)
                (sym tx_same ∙ (sym same ∙ (sym clash ∙ id_same))) found) in
          foreign (ap (λ t. t.merchant_id) one ∙ owned))

  void_body-HasRow :
      (env : Env) (tx_id : ℕ) (s : Store) {t : Transaction} {s' : Store}
      → HasRow id row s
      → void_body env merchant_id tx_id s ≡ (ok t, s')
      → HasRow id row s'
  unfolding void_body
  void_body-HasRow env tx_id s {s'} h k = >>=_elim _ _ s k λ fresh s₁ h₁ r₁.
      >>=_elim _ _ s₁ r₁ λ u s₂ h₂ r₂. >>=_elim _ _ s₂ r₂ λ moved s₃ h₃ r₃.
        let (found, e₁) = get_for_update_ok env.faults tx_id s h₁ in
        let (owned, e₂) = owned_by_ok merchant_id fresh s₁ h₂ in
        let (accepted, m, e₃) = on_row_ok (void_row env.now) fresh s₂ h₃ in
        let done = write_and_notify_ok env moved WebhookEvent.payment_voided s₃ r₃ in
        posted-HasRow tx_id s s' fresh moved h found owned
          (ap (λ x. x.id) m ∙ void_same env.now fresh) env.db_now
          (ap (λ x. x.transactions) done.store
            ∙ ap (λ x. write_rows moved env.db_now x.transactions) (e₃ ∙ (e₂ ∙ e₁)))

  -- The three requests that move money, or give it up, on a payment.
  pub capture-HasRow :
      (env : Env) (answer : Answer) (others : Others) (tx_id : ℕ) (amount : Amount)
      → Keeps (HasRow id row) (modify others)
      → Keeps (HasRow id row) (capture env answer others merchant_id tx_id amount)
  unfolding capture
  capture-HasRow env answer others tx_id amount keep =
      Keeps-seq (HasRow id row) _ _
        (Keeps-capture_check (HasRow id row) env merchant_id tx_id amount)
        λ asked.
          Keeps-seq (HasRow id row) _ _ (λ s h. h)
            λ ref. Keeps-seq (HasRow id row) _ _ keep λ u.
              Keeps-with_tx (HasRow id row) env.faults _ λ s s' t h k.
                let done = capture_body_ok env merchant_id tx_id asked.0 s k in
                posted-HasRow tx_id s s' done.fresh (capture_row asked.0 env.now done.fresh).1 h
                  done.found done.owned (capture_same asked.0 env.now done.fresh) env.db_now
                  (ap (λ x. x.transactions) done.booked.store)

  pub refund-HasRow :
      (env : Env) (answer : Answer) (others : Others) (tx_id : ℕ) (amount : Amount)
      → Keeps (HasRow id row) (modify others)
      → Keeps (HasRow id row) (refund env answer others merchant_id tx_id amount)
  unfolding refund
  refund-HasRow env answer others tx_id amount keep =
      Keeps-seq (HasRow id row) _ _
        (Keeps-refund_check (HasRow id row) env merchant_id tx_id amount)
        λ asked.
          Keeps-seq (HasRow id row) _ _ (λ s h. h)
            λ ref. Keeps-seq (HasRow id row) _ _ keep λ u.
              Keeps-with_tx (HasRow id row) env.faults _ λ s s' t h k.
                let done = refund_body_ok env merchant_id tx_id asked.0 s k in
                posted-HasRow tx_id s s' done.fresh (refund_row asked.0 env.now done.fresh).1 h
                  done.found done.owned (refund_same asked.0 env.now done.fresh) env.db_now
                  (ap (λ x. x.transactions) done.booked.store)

  pub void-HasRow :
      (env : Env) (answer : String → Result Error String) (others : Others) (tx_id : ℕ)
      → Keeps (HasRow id row) (modify others)
      → Keeps (HasRow id row) (void env answer others merchant_id tx_id)
  unfolding void
  void-HasRow env answer others tx_id keep =
      Keeps-seq (HasRow id row) _ _
        (Keeps-get_by_merchant_and_id (HasRow id row) env.faults merchant_id tx_id)
        λ txn.
          Keeps-seq (HasRow id row) _ _ (Keeps-on_row (HasRow id row) (void_row env.checked_at) txn)
            λ t.
              Keeps-seq (HasRow id row) _ _ (λ s h. h)
                λ ref. Keeps-seq (HasRow id row) _ _ keep λ u.
                  Keeps-with_tx (HasRow id row) env.faults _
                    λ s s' t h k. void_body-HasRow env tx_id s h k
