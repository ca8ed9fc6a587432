-- ===== src/Domain/Webhook.antt =====
-- internal/domain/webhook.go: the outbox row of one webhook, and its retries; and the payload that
-- internal/service/payment_service.go puts into it.
use mini_payment_gateway.Prelude.{ℕ, ◌+◌, ◌*◌, ◌^◌, String, List, ltb, leb, if◌then◌else◌}
use mini_payment_gateway.Prelude.Int.{ℤ, pos, ◌+ℤ◌}
use mini_payment_gateway.Money.{Amount, Currency}
use mini_payment_gateway.Domain.Transaction.{Time, Transaction, Status}

pub data WebhookEvent : Type 0 where
  payment_authorized payment_captured payment_failed : WebhookEvent
  payment_refunded payment_voided payment_settled : WebhookEvent

pub data DeliveryStatus : Type 0 where
  pending delivering delivered failed dead : DeliveryStatus

-- `EventPayload` with its `EventPayloadTxn`, before it is written as JSON. The id is `evt_` and the
-- number that `uuid.NewString` returns.
pub record EventPayload : Type 0 where
  pub id : ℕ
  pub event : WebhookEvent
  pub created_at : Time
  pub txn_id : ℕ
  pub merchant_id : ℕ
  pub reference : String
  pub amount : Amount
  pub currency : Currency
  pub status : Status
  pub captured_amount : Amount
  pub refunded_amount : Amount
  pub card_last4 : String
  pub card_brand : String
  pub failure_code : String
  pub metadata : List (String × String)
  pub txn_created_at : Time

-- `BuildEventPayload`.
unfoldable pub build_event_payload : ℕ → WebhookEvent → Transaction → Time → EventPayload
build_event_payload id event txn now = record {
  id = id;
  event = event;
  created_at = now;
  txn_id = txn.id;
  merchant_id = txn.merchant_id;
  reference = txn.reference;
  amount = txn.amount;
  currency = txn.currency;
  status = txn.status;
  captured_amount = txn.captured_amount;
  refunded_amount = txn.refunded_amount;
  card_last4 = txn.card_last4;
  card_brand = txn.card_brand;
  failure_code = txn.failure_code;
  metadata = txn.metadata;
  txn_created_at = txn.created_at;
}

pub record WebhookDelivery : Type 0 where
  pub id : ℕ
  pub merchant_id : ℕ
  pub transaction_id : ℕ
  pub event_type : WebhookEvent
  pub payload : EventPayload
  pub status : DeliveryStatus
  pub attempt_count : ℕ
  pub next_attempt_at : Time
  pub last_error : String
  pub created_at : Time
  pub updated_at : Time

-- `NewWebhookDelivery`; the id is what `uuid.New` returns.
unfoldable pub new_webhook_delivery :
    ℕ → ℕ → ℕ → WebhookEvent → EventPayload → Time → WebhookDelivery
new_webhook_delivery id merchant_id transaction_id event payload now = record {
  id = id;
  merchant_id = merchant_id;
  transaction_id = transaction_id;
  event_type = event;
  payload = payload;
  status = DeliveryStatus.pending;
  attempt_count = 0;
  next_attempt_at = now;
  last_error = "";
  created_at = now;
  updated_at = now;
}

-- `BackoffDelay`, with the attempt held between 1 and 16. The product of the base, the jitter and a
-- second is computed in floating point: `jittered` takes the base to it.
unfoldable pub backoff_delay : (ℕ → ℤ) → ℕ → ℤ
backoff_delay jittered attempt =
    let n = if ltb attempt 1 then 1 else if ltb 16 attempt then 16 else attempt in jittered (2 ^ n)

-- The product without a source of jitter, which is exact.
abbrev pub without_jitter : ℕ → ℤ
without_jitter base = pos (base * 1000000000)

-- `RecordFailure`.
unfoldable pub record_failure : (ℕ → ℤ) → String → ℕ → Time → WebhookDelivery → WebhookDelivery
unfolding backoff_delay ◌+ℤ◌
record_failure jittered err_msg max_attempts now d =
    let f = record d {
      attempt_count = d.attempt_count + 1;
      last_error = err_msg;
      updated_at = now;
    } in
    if leb max_attempts f.attempt_count
    then record f { status = DeliveryStatus.dead }
    else record f {
      status = DeliveryStatus.failed;
      next_attempt_at = now +ℤ backoff_delay jittered f.attempt_count;
    }

-- `RecordSuccess`.
unfoldable pub record_success : Time → WebhookDelivery → WebhookDelivery
record_success now d = record d {
  attempt_count = d.attempt_count + 1;
  status = DeliveryStatus.delivered;
  last_error = "";
  updated_at = now;
}
