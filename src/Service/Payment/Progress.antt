-- ===== src/Service/Payment/Progress.antt =====
-- A capture or a refund that the rules allow goes through where no statement fails.
use mini_payment_gateway.Prelude.{
  ℕ, ◌≡◌, refl, ap, ◌∙◌, true, none, some, ok, ◌>>=◌, >>=_ok, is_ok, if◌then◌else◌, arith,
}
use mini_payment_gateway.Prelude.Lists.{find}
use mini_payment_gateway.Prelude.Int.{pos, eqb_ℤ, ◌≤ℤ◌, ◌<ℤ◌}
use mini_payment_gateway.Money.{Amount, fee}
use mini_payment_gateway.Domain.Transaction.{
  Time, Status, Transaction, Method, capture as capture_row, refund as refund_row,
}
use mini_payment_gateway.Domain.Transaction.Validity.{IsValid, is_open}
use mini_payment_gateway.Domain.Transaction.Captures.{
  Capturable, capture_iff, capture-Captured, capture-IsValid,
}
use mini_payment_gateway.Domain.Transaction.Refunds.{
  Refundable, refund_iff, refund-Refunded, refund-IsValid,
}
use mini_payment_gateway.Domain.Ledger.Legs.{
  capture_group_valid, new_capture_group, refund_group_valid, new_refund_group,
}
use mini_payment_gateway.Domain.Webhook.{WebhookEvent}
use mini_payment_gateway.Repository.{Store, Statement, Faults, Query}
use mini_payment_gateway.Repository.Transactions.{
  find_id, get_for_update, update, is_version_of, row_allowed, written, write_rows,
}
use mini_payment_gateway.Repository.Transactions.Rows.{
  saved, with_rows, find-is_version_of, find_id_self,
}
use mini_payment_gateway.Repository.Entries.Appends.{insert_group_done}
use mini_payment_gateway.Service.Payment.Writes.{webhook, with_delivery}
use mini_payment_gateway.Service.Payment.Captures.{capture_fits}
use mini_payment_gateway.Service.Payment.Refunds.{refund_fits}
use mini_payment_gateway.Service.Payment.{
  Env, on_row, owned_by, queue_webhook, capture_body, refund_body,
}

module _ (faults : Faults) (none_fail : (k : Statement) → faults k ≡ none) where
  get_for_update_found :
      (id : ℕ) (s : Store) {t : Transaction}
      → find_id id s.transactions ≡ some t
      → get_for_update faults id s ≡ (ok t, s)
  unfolding get_for_update
  get_for_update_found id s {t} h = let f = none_fail Statement.select_transaction in ground arith

  update_found :
      (t row : Transaction) (now : Time) (s : Store)
      → find (is_version_of t) s.transactions ≡ some row
      → row_allowed (written t now row) ≡ true
      → update faults t now s
        ≡ (ok (saved t now row), with_rows s (write_rows t now s.transactions))
  unfolding update
  update_found t row now s h allowed =
      let f = none_fail Statement.update_transaction in ground arith

-- A row that was captured satisfies the table's constraints.
captured_allowed :
    (moved row : Transaction) (now : Time)
    → IsValid moved
    → moved.status ≡ Status.captured
    → moved.amount ≡ row.amount
    → row_allowed (written moved now row) ≡ true
captured_allowed moved row now v s a = ground arith

refunded_allowed :
    (moved row : Transaction) (now : Time)
    → IsValid moved
    → is_open row.status ≡ true
    → moved.status
      ≡ (if eqb_ℤ moved.refunded_amount row.captured_amount then Status.refunded else row.status)
    → moved.amount ≡ row.amount
    → row_allowed (written moved now row) ≡ true
refunded_allowed moved row now v o s a = ground arith

-- A sequence succeeds where its first part does, and the rest after that.
>>=_is_ok :
    {A B : Type 0} (m : Query A) (f : A → Query B) (s : Store) {a : A} {t : Store}
    → m s ≡ (ok a, t)
    → is_ok (f a t).0 ≡ true
    → is_ok ((m >>= f) s).0 ≡ true
>>=_is_ok m f s h rest = ap (λ p. is_ok p.0) (>>=_ok m f s h) ∙ rest

module _ (env : Env) (none_fail : (k : Statement) → env.faults k ≡ none) where
  queue_webhook_done :
      (t : Transaction) (event : WebhookEvent) (s : Store)
      → queue_webhook env t event s ≡ (ok tt, with_delivery s (webhook env t event))
  unfolding queue_webhook
  queue_webhook_done t event s = let f = none_fail Statement.insert_delivery in ground arith

  owned_by_done :
      (merchant_id : ℕ) (t : Transaction) (s : Store)
      → t.merchant_id ≡ merchant_id
      → owned_by merchant_id t s ≡ (ok tt, s)
  owned_by_done merchant_id t s h = ground arith

  on_row_done :
      (m : Method) (t : Transaction) (s : Store) → (m t).0 ≡ ok tt → on_row m t s ≡ (ok (m t).1, s)
  on_row_done m t s h = ground arith

  pub capture_body_succeeds :
      (merchant_id tx_id : ℕ) (amount : Amount) (s : Store) {fresh : Transaction}
      → find_id tx_id s.transactions ≡ some fresh
      → fresh.merchant_id ≡ merchant_id
      → IsValid fresh
      → Capturable fresh amount env.now
      → pos 0 ≤ℤ fee amount env.fee_bps
      → fee amount env.fee_bps <ℤ amount
      → is_ok (capture_body env merchant_id tx_id amount s).0 ≡ true
  unfolding capture_body
  capture_body_succeeds merchant_id tx_id amount s {fresh} found owned valid allowed low high =
      let accepted = (capture_iff valid amount env.now).1 allowed in
      let moved = (capture_row amount env.now fresh).1 in
      let (status, c, r, same, i, m, k, v, at) = capture-Captured valid amount env.now accepted in
      let fits = capture_fits amount env.now valid accepted in
      let charge = fee amount env.fee_bps in
      let t = saved moved env.db_now fresh in
      let found' : find_id moved.id s.transactions ≡ some fresh =
        ap (λ x. find_id x s.transactions) i ∙ find_id_self tx_id s.transactions found in
      >>=_is_ok _ _ s (get_for_update_found env.faults none_fail tx_id s found) (
        >>=_is_ok _ _ s (owned_by_done merchant_id fresh s owned) (
          >>=_is_ok _ _ s (on_row_done (capture_row amount env.now) fresh s accepted) (
            >>=_is_ok _ _ s
              (update_found env.faults none_fail moved fresh env.db_now s
                (find-is_version_of moved s.transactions found' v)
                (captured_allowed moved fresh env.db_now
                  (capture-IsValid valid amount env.now accepted) status same))
              (>>=_is_ok _ _ _
                (ap (λ x. (x, with_rows s (write_rows moved env.db_now s.transactions)))
                  (new_capture_group env.group_id t env.now amount fits charge low high))
                (>>=_is_ok _ _ _
                  (insert_group_done env.faults none_fail _ _
                    (capture_group_valid env.group_id t env.now amount fits charge low high))
                  (>>=_is_ok _ _ _ (queue_webhook_done t WebhookEvent.payment_captured _) refl))))))

  -- The same of Refund, which takes no fee.
  pub refund_body_succeeds :
      (merchant_id tx_id : ℕ) (amount : Amount) (s : Store) {fresh : Transaction}
      → find_id tx_id s.transactions ≡ some fresh
      → fresh.merchant_id ≡ merchant_id
      → IsValid fresh
      → Refundable fresh amount
      → is_ok (refund_body env merchant_id tx_id amount s).0 ≡ true
  unfolding refund_body
  refund_body_succeeds merchant_id tx_id amount s {fresh} found owned valid allowed =
      let accepted = (refund_iff valid amount env.now).1 allowed in
      let moved = (refund_row amount env.now fresh).1 in
      let (status, r, c, same, i, m, k, v, at) = refund-Refunded valid amount env.now accepted in
      let (fits, positive) = refund_fits amount env.now valid accepted in
      let t = saved moved env.db_now fresh in
      let found' : find_id moved.id s.transactions ≡ some fresh =
        ap (λ x. find_id x s.transactions) i ∙ find_id_self tx_id s.transactions found in
      >>=_is_ok _ _ s (get_for_update_found env.faults none_fail tx_id s found) (
        >>=_is_ok _ _ s (owned_by_done merchant_id fresh s owned) (
          >>=_is_ok _ _ s (on_row_done (refund_row amount env.now) fresh s accepted) (
            >>=_is_ok _ _ s
              (update_found env.faults none_fail moved fresh env.db_now s
                (find-is_version_of moved s.transactions found' v)
                (refunded_allowed moved fresh env.db_now
                  (refund-IsValid valid amount env.now accepted) allowed.1 (rw r status) same))
              (>>=_is_ok _ _ _
                (ap (λ x. (x, with_rows s (write_rows moved env.db_now s.transactions)))
                  (new_refund_group env.group_id t env.now amount fits positive))
                (>>=_is_ok _ _ _
                  (insert_group_done env.faults none_fail _ _
                    (refund_group_valid env.group_id t env.now amount fits positive))
                  (>>=_is_ok _ _ _ (queue_webhook_done t WebhookEvent.payment_refunded _) refl))))))
