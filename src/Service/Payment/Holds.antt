-- ===== src/Service/Payment/Holds.antt =====
-- The database transactions that move no money: the hold, the decline and the void; and the INSERT of a
-- new row.
use mini_payment_gateway.Prelude.{
  ℕ, ◌≡◌, sym, ap, ◌∙◌, subst, some, List, [], inl, inr, ok, >>=_elim, ◌==◌, Bool-cases, if_same,
  not,
}
use mini_payment_gateway.Prelude.Int.{pos, +ℤ-zero}
use mini_payment_gateway.Domain.Errors.{DeclineCode, decline_code, Error}
use mini_payment_gateway.Domain.Transaction.{
  Time, Status, Transaction, status_eq, authorize as authorize_row, fail, void as void_row,
}
use mini_payment_gateway.Domain.Transaction.Validity.{IsValid}
use mini_payment_gateway.Domain.Transaction.Holds.{Unmoved, authorize_ok, fail_ok, void_ok}
use mini_payment_gateway.Domain.Webhook.{WebhookEvent, WebhookDelivery}
use mini_payment_gateway.Repository.{Store}
use mini_payment_gateway.Repository.Transactions.{find_id}
use mini_payment_gateway.Repository.Transactions.Rows.{get_for_update_ok, find_id_self, update_ok}
use mini_payment_gateway.Repository.Books.{IsSound, Agrees}
use mini_payment_gateway.Repository.Books.Groups.{captured_of_nil, refunded_of_nil, balanced_nil}
use mini_payment_gateway.Repository.Books.Postings.{Matches, posted, posted-IsSound}
use mini_payment_gateway.Service.Payment.{
  Env, AuthorizeResponse, authorize_body, failure_body, fail_row, void_body,
}
use mini_payment_gateway.Service.Payment.Writes.{
  write_and_notify_ok, on_row_ok, owned_by_ok, raise_if_ok, queue_webhook_ok, with_no_lines,
  with_delivery, webhook,
}

-- A row that is written with its amounts unmoved, and no lines, keeps the books sound.
Unmoved-Matches :
    {fresh moved : Transaction} → Unmoved fresh moved → IsValid moved → Matches fresh moved []
Unmoved-Matches {fresh} u v = record {
  same_id = u.same_id;
  same_version = u.same_version;
  same_amount = u.same_amount;
  valid = v;
  captured_by = pos 0;
  refunded_by = pos 0;
  captures = u.same_captured ∙ sym (+ℤ-zero _);
  refunds = u.same_refunded ∙ sym (+ℤ-zero _);
  captured_lines = λ id. captured_of_nil id ∙ sym (if_same (fresh.id == id) (pos 0));
  refunded_lines = λ id. refunded_of_nil id ∙ sym (if_same (fresh.id == id) (pos 0));
  balance = balanced_nil;
}

-- The row that a body found is well-formed in sound books.
pub row-IsValid :
    (tx_id : ℕ) (s : Store) {fresh : Transaction}
    → IsSound s
    → find_id tx_id s.transactions ≡ some fresh
    → IsValid fresh
row-IsValid tx_id s {fresh} sound found =
    let agree : Agrees tx_id (some fresh) s.entries = rw found at (sound.agrees tx_id) in agree.0

pub Unmoved-IsSound :
    (tx_id : ℕ) (s : Store) (fresh moved : Transaction) (now : Time) (ds : List WebhookDelivery)
    → IsSound s
    → find_id tx_id s.transactions ≡ some fresh
    → Unmoved fresh moved × IsValid moved
    → IsSound (posted moved now [] ds s)
Unmoved-IsSound tx_id s fresh moved now ds sound found (u, v) =
    posted-IsSound sound (find_id_self tx_id s.transactions found) (Unmoved-Matches u v) now ds

-- A void that succeeds keeps the books sound.
pub void_body-IsSound :
    (env : Env) (merchant_id tx_id : ℕ) (s : Store) {t : Transaction} {s' : Store}
    → IsSound s
    → void_body env merchant_id tx_id s ≡ (ok t, s')
    → IsSound s'
unfolding void_body
void_body-IsSound env merchant_id tx_id s {s' = s'} sound h = >>=_elim _ _ s h λ fresh s₁ h₁ r₁.
    >>=_elim _ _ s₁ r₁ λ u s₂ h₂ r₂. >>=_elim _ _ s₂ r₂ λ moved s₃ h₃ r₃.
      let (found, e₁) = get_for_update_ok env.faults tx_id s h₁ in
      let (owned, e₂) = owned_by_ok merchant_id fresh s₁ h₂ in
      let (accepted, m, e₃) = on_row_ok (void_row env.now) fresh s₂ h₃ in
      let done = write_and_notify_ok env moved WebhookEvent.payment_voided s₃ r₃ in
      rw (done.store, m, e₃ ∙ e₂ ∙ e₁)
        (Unmoved-IsSound tx_id s fresh _ env.db_now _ sound found
          (void_ok (row-IsValid tx_id s sound found) env.now accepted))

-- The write-back of a hold keeps the books sound.
pub authorize_body-IsSound :
    (env : Env) (tx_id : ℕ) (res : AuthorizeResponse) (s : Store) {t : Transaction} {s' : Store}
    → IsSound s
    → authorize_body env tx_id res s ≡ (ok t, s')
    → IsSound s'
unfolding authorize_body
authorize_body-IsSound env tx_id res s sound h = >>=_elim _ _ s h λ fresh s₁ h₁ r₁.
    >>=_elim _ _ s₁ r₁ λ u s₂ h₂ r₂. >>=_elim _ _ s₂ r₂ λ moved s₃ h₃ r₃.
      let (found, e₁) = get_for_update_ok env.faults tx_id s h₁ in
      let e₂ : s₂ ≡ s₁ =
        raise_if_ok (not (status_eq fresh.status Status.created)) Error.concurrent_modification s₁
          h₂ in
      let (accepted, m, e₃) =
        on_row_ok (authorize_row res.ref res.card_last4 res.card_brand env.now) fresh s₂ h₃ in
      let done = write_and_notify_ok env moved WebhookEvent.payment_authorized s₃ r₃ in
      rw (done.store, m, e₃ ∙ e₂ ∙ e₁)
        (Unmoved-IsSound tx_id s fresh _ env.db_now _ sound found (
          authorize_ok (row-IsValid tx_id s sound found) res.ref res.card_last4 res.card_brand
            env.now accepted))

fail_row-IsSound :
    (env : Env) (code : DeclineCode) (tx_id : ℕ) (fresh : Transaction) (s : Store) {s' : Store}
    → IsSound s
    → find_id tx_id s.transactions ≡ some fresh
    → fail_row env code fresh s ≡ (ok tt, s')
    → IsSound s'
unfolding fail_row
fail_row-IsSound env code tx_id fresh s sound found h = >>=_elim _ _ s h λ moved s₁ h₁ r₁.
    >>=_elim _ _ s₁ r₁ λ t s₂ h₂ r₂.
      let (accepted, m, e₁) = on_row_ok (fail (decline_code code) env.now) fresh s h₁ in
      let (row, q, result, e₂) = update_ok env.faults moved env.db_now s₁ h₂ in
      let e₃ = queue_webhook_ok env t WebhookEvent.payment_failed s₂ r₂ in
      rw
        (
          e₃
              ∙ ap (λ x. with_delivery x (webhook env t WebhookEvent.payment_failed))
                  (e₂ ∙ with_no_lines _),
          m,
          e₁,
        )
        (Unmoved-IsSound tx_id s fresh _ env.db_now _ sound found
          (fail_ok (row-IsValid tx_id s sound found) (decline_code code) env.now accepted))

-- Recording a decline keeps the books sound, also where the transaction was resolved meanwhile.
pub failure_body-IsSound :
    (env : Env) (tx_id : ℕ) (code : DeclineCode) (s : Store) {s' : Store}
    → IsSound s
    → failure_body env tx_id code s ≡ (ok tt, s')
    → IsSound s'
unfolding failure_body
failure_body-IsSound env tx_id code s {s'} sound h = >>=_elim _ _ s h λ fresh s₁ h₁ r₁.
    let (found, e₁) = get_for_update_ok env.faults tx_id s h₁ in
    elim (Bool-cases (not (status_eq fresh.status Status.created))) [
      | inl e ↦
          let left : s' ≡ s₁ = sym (ap (λ x. x.1) (rw e at r₁)) in
          subst IsSound (sym (left ∙ e₁)) sound
      | inr e ↦
          fail_row-IsSound env code tx_id fresh s sound found
            (subst (λ x. fail_row env code fresh x ≡ (ok tt, s')) e₁ (rw e at r₁))
    ]
