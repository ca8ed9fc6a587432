-- ===== src/Dispatcher.antt =====
-- internal/webhook/dispatcher.go: one delivery of a claimed row, the poller and the release of a row.
-- AES-GCM, HMAC-SHA256, the JSON of a payload, the HTTP client and the text of a reason are arguments.
pub mod Attempts
pub mod Outbox
mod Examples
use mini_payment_gateway.Prelude.{
  ℕ, ◌+◌, ◌*◌, String, Bool, ◌||◌, Option, List, [], Result, ok, err, ltb, ◌>>=◌, pure,
  if◌then◌else◌,
}
use mini_payment_gateway.Prelude.Int.{ℤ, pos}
use mini_payment_gateway.Domain.Errors.{Error}
use mini_payment_gateway.Domain.Transaction.{Time}
use mini_payment_gateway.Domain.Webhook.{
  WebhookEvent, DeliveryStatus, EventPayload, WebhookDelivery, record_failure, record_success,
}
use mini_payment_gateway.Merchants.{Merchant, Table, merchant_by_id}
use mini_payment_gateway.Repository.{Store, Faults, Query}
use mini_payment_gateway.Repository.Deliveries.{update_attempt, claim_due, release_stale}
use mini_payment_gateway.Secrets.{Aead, decrypt}
use mini_payment_gateway.Signer.{Hmac, sign}
use mini_payment_gateway.Text.{Bytes, is_empty}

-- Why an attempt failed.
pub data Reason : Type 0 where
  load_merchant decrypt_secret post_webhook : Error → Reason
  endpoint_returned : ℕ → Reason

-- The request of `post`, with the headers that depend on the delivery.
pub record HookRequest : Type 0 where
  pub url : Bytes
  pub webhook_id : ℕ
  pub event_type : WebhookEvent
  pub signature : Bytes
  pub body : Bytes

-- What an attempt reads: the merchants table, or the error of its query; the cipher; the status code
-- that the client gives back for a request, or its error, also where the URL is malformed; and the
-- clock.
pub record World : Type 0 where
  pub merchant_fault : Option Error
  pub merchants : Table
  pub aead : Aead
  pub hmac : Hmac
  pub payload_json : EventPayload → Bytes
  pub client : HookRequest → Result Error ℕ
  pub reason_text : Reason → String
  pub max_attempts : ℕ
  pub jittered : ℕ → ℤ
  pub now : Time

-- The request that `post` builds.
unfoldable pub hook_request : World → Bytes → Bytes → WebhookDelivery → HookRequest
unfolding sign
hook_request w url secret d = record {
  url = url;
  webhook_id = d.id;
  event_type = d.event_type;
  signature = sign w.hmac secret w.now (w.payload_json d.payload);
  body = w.payload_json d.payload;
}

-- The end of `post`: a status outside 200 to 299 is a failure.
abbrev pub answered : Result Error ℕ → Result Reason ℕ
answered (err e) = err (Reason.post_webhook e)
answered (ok status) =
    if ltb status 200 || ltb 299 status then err (Reason.endpoint_returned status) else ok status

-- `post`.
unfoldable pub post : World → Bytes → Bytes → WebhookDelivery → Result Reason ℕ
unfolding hook_request
post w url secret d = answered (w.client (hook_request w url secret d))

-- `fail`, on the row in memory.
unfoldable pub fail : World → Reason → WebhookDelivery → WebhookDelivery
unfolding record_failure
fail w reason d = record_failure w.jittered (w.reason_text reason) w.max_attempts w.now d

-- A merchant with no endpoint.
abbrev pub park : World → WebhookDelivery → WebhookDelivery
park w d = record d {
  attempt_count = d.attempt_count + 1;
  status = DeliveryStatus.dead;
  last_error = "merchant has no webhook_url configured";
  updated_at = w.now;
}

-- `deliver` with the secret, and with the merchant.
abbrev pub deliver_to : World → Bytes → WebhookDelivery → Result Error Bytes → WebhookDelivery
deliver_to w url d (err e) = fail w (Reason.decrypt_secret e) d
deliver_to w url d (ok secret) = elim (post w url secret d) [
  | err reason ↦ fail w reason d
  | ok status ↦ record_success w.now d
]

abbrev pub deliver_for : World → WebhookDelivery → Result Error Merchant → WebhookDelivery
deliver_for w d (err e) = fail w (Reason.load_merchant e) d
deliver_for w d (ok m) =
    if is_empty m.webhook_url
    then park w d
    else deliver_to w m.webhook_url d (decrypt w.aead m.webhook_secret_enc)

-- `deliver`, on the row in memory, which `persist` then writes.
unfoldable pub deliver : World → WebhookDelivery → WebhookDelivery
unfolding fail post record_success decrypt merchant_by_id
deliver w d = deliver_for w d (merchant_by_id w.merchant_fault d.merchant_id w.merchants)

-- `persist`: an error is logged, and the row stays claimed.
unfoldable pub persist : Faults → Time → WebhookDelivery → Store → Store
persist faults db_now d s = (update_attempt faults d db_now s).1

-- `release`: a claimed row goes back on the queue, and no attempt is counted.
unfoldable pub release : Time → WebhookDelivery → WebhookDelivery
release now d = record d { status = DeliveryStatus.failed; next_attempt_at = now }

-- Five minutes.
abbrev pub stale_claim_timeout : ℤ
stale_claim_timeout = pos 300000000000

-- What one round of `poll` reads: the number of workers, the rows that others have locked, and the
-- clocks of the process and of the database, at each of the two statements.
pub record Tick : Type 0 where
  pub faults : Faults
  pub workers : ℕ
  pub locked : ℕ → Bool
  pub released_at : Time
  pub db_released_at : Time
  pub claimed_at : Time
  pub db_claimed_at : Time

-- One round of the loop of `poll`: an error of the release is logged, and one of the claim ends the
-- round.
unfoldable pub poll_round : Tick → Query (List WebhookDelivery)
poll_round tick s =
    claim_due tick.faults tick.locked (tick.workers * 2) tick.claimed_at tick.db_claimed_at
      (release_stale tick.faults stale_claim_timeout tick.released_at tick.db_released_at s).1
