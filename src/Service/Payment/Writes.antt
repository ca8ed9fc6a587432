-- ===== src/Service/Payment/Writes.antt =====
-- The part that the database transactions of the service share: the row is written, the lines are
-- booked, and the webhook is queued.
use mini_payment_gateway.Prelude.{
  ℕ, ◌≡◌, sym, ap, ap₂, ◌∙◌, Bool, [], ◌∷◌, ◌++◌, some, Result, ok, >>=_elim, ◌>>=◌, ◌>>◌, pure,
  raise_if, from_result, arith,
}
use mathlib.Core.List.{append-nil}
use mini_payment_gateway.Domain.Errors.{Error}
use mini_payment_gateway.Domain.Transaction.{Transaction, Method}
use mini_payment_gateway.Domain.Ledger.{EntryGroup}
use mini_payment_gateway.Domain.Webhook.{
  WebhookEvent, WebhookDelivery, build_event_payload, new_webhook_delivery,
}
use mini_payment_gateway.Repository.{Store, Query}
use mini_payment_gateway.Repository.Transactions.{update, is_version_of}
use mini_payment_gateway.Repository.Transactions.Rows.{saved, update_ok}
use mini_payment_gateway.Repository.Entries.{insert_group}
use mini_payment_gateway.Repository.Entries.Appends.{with_entries, insert_group_ok}
use mini_payment_gateway.Repository.Books.Postings.{posted}
use mini_payment_gateway.Prelude.Lists.{find}
use mini_payment_gateway.Service.Payment.{Env, on_row, owned_by, queue_webhook}

-- The webhook of an event.
abbrev pub webhook : Env → Transaction → WebhookEvent → WebhookDelivery
webhook env t event =
    new_webhook_delivery env.delivery_id t.merchant_id t.id event
      (build_event_payload env.event_id event t env.payload_at) env.queued_at

abbrev pub with_delivery : Store → WebhookDelivery → Store
with_delivery s d = record s { deliveries = s.deliveries ++ d ∷ [] }

pub queue_webhook_ok :
    (env : Env) (t : Transaction) (event : WebhookEvent) (s : Store) {s' : Store}
    → queue_webhook env t event s ≡ (ok tt, s')
    → s' ≡ with_delivery s (webhook env t event)
unfolding queue_webhook
queue_webhook_ok env t event s h = ground arith

pub on_row_ok :
    (m : Method) (t : Transaction) (s : Store) {t' : Transaction} {s' : Store}
    → on_row m t s ≡ (ok t', s')
    → ((m t).0 ≡ ok tt) × (t' ≡ (m t).1) × (s' ≡ s)
on_row_ok m t s h = ground arith

pub owned_by_ok :
    (merchant_id : ℕ) (t : Transaction) (s : Store) {s' : Store}
    → owned_by merchant_id t s ≡ (ok tt, s')
    → (t.merchant_id ≡ merchant_id) × (s' ≡ s)
owned_by_ok merchant_id t s h = ground arith

pub raise_if_ok :
    (b : Bool) (e : Error) (s : Store) {s' : Store} → raise_if b e s ≡ (ok tt, s') → s' ≡ s
raise_if_ok b e s h = ground arith

pub from_result_ok :
    {A : Type 0} (r : Result Error A) (s : Store) {a : A} {s' : Store}
    → from_result r s ≡ (ok a, s')
    → (r ≡ ok a) × (s' ≡ s)
from_result_ok r s h = ground arith

-- To book no lines changes nothing.
pub with_no_lines : (s : Store) → s ≡ with_entries s []
with_no_lines s = ap (λ es. record s { entries = es }) (sym (append-nil s.entries))

module _ (env : Env) (moved : Transaction) (event : WebhookEvent) where
  -- What is booked for a row as it was saved.
  module _ (group_of : Transaction → Result Error EntryGroup) where
    -- The tail of `Capture` and `Refund`.
    abbrev pub write_and_book : Query Transaction
    write_and_book = do
      saved ← update env.faults moved env.db_now
      group ← from_result (group_of saved)
      insert_group env.faults group
      queue_webhook env saved event
      pure saved

    -- How it ends when it succeeds.
    pub record Booked (s : Store) (t : Transaction) (s' : Store) : Type 0 where
      pub row : Transaction
      pub found : find (is_version_of moved) s.transactions ≡ some row
      pub result : t ≡ saved moved env.db_now row
      pub group : EntryGroup
      pub made : group_of t ≡ ok group
      pub store :
          s' ≡ posted moved env.db_now group.entries (s.deliveries ++ webhook env t event ∷ []) s

    pub write_and_book_ok :
        (s : Store) {t : Transaction} {s' : Store} → write_and_book s ≡ (ok t, s') → Booked s t s'
    write_and_book_ok s {t} {s'} h = >>=_elim _ _ s h λ t₁ s₁ h₁ r₁.
        >>=_elim _ _ s₁ r₁ λ group s₂ h₂ r₂. >>=_elim _ _ s₂ r₂ λ u₃ s₃ h₃ r₃.
          >>=_elim _ _ s₃ r₃ λ u₄ s₄ h₄ r₄.
            let (row, found, result, e₁) = update_ok env.faults moved env.db_now s h₁ in
            let (made, e₂) = from_result_ok (group_of t₁) s₁ h₂ in
            let (checked, e₃) = insert_group_ok env.faults group s₂ h₃ in
            let e₄ = queue_webhook_ok env t₁ event s₃ h₄ in
            let same : t₁ ≡ t = cc in
            let stored : s' ≡ s₄ = cc in
            record {
              row = row;
              found = found;
              result = sym same ∙ result;
              group = group;
              made = ap group_of (sym same) ∙ made;
              store =
                  stored
                  ∙ e₄
                  ∙ ap₂ (λ x y. with_delivery x (webhook env y event))
                      (e₃ ∙ ap (λ x. with_entries x group.entries) (e₂ ∙ e₁)) same;
            }

  -- The tail of the operations that book nothing.
  abbrev pub write_and_notify : Query Transaction
  write_and_notify = do
    saved ← update env.faults moved env.db_now
    queue_webhook env saved event
    pure saved

  pub record Notified (s : Store) (t : Transaction) (s' : Store) : Type 0 where
    pub row : Transaction
    pub found : find (is_version_of moved) s.transactions ≡ some row
    pub result : t ≡ saved moved env.db_now row
    pub store : s' ≡ posted moved env.db_now [] (s.deliveries ++ webhook env t event ∷ []) s

  pub write_and_notify_ok :
      (s : Store) {t : Transaction} {s' : Store} → write_and_notify s ≡ (ok t, s') → Notified s t s'
  write_and_notify_ok s {t} {s'} h = >>=_elim _ _ s h λ t₁ s₁ h₁ r₁.
      >>=_elim _ _ s₁ r₁ λ u₂ s₂ h₂ r₂.
        let (row, found, result, e₁) = update_ok env.faults moved env.db_now s h₁ in
        let e₂ = queue_webhook_ok env t₁ event s₁ h₂ in
        let same : t₁ ≡ t = cc in
        let stored : s' ≡ s₂ = cc in
        record {
          row = row;
          found = found;
          result = sym same ∙ result;
          store =
              stored
              ∙ e₂
              ∙ ap₂ (λ x y. with_delivery x (webhook env y event)) (e₁ ∙ with_no_lines _) same;
        }
