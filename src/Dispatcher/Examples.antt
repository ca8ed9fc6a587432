-- ===== src/Dispatcher/Examples.antt =====
-- The theorems on deliveries at a concrete row.
use mini_payment_gateway.Prelude.{
  ℕ, ◌≤◌, ◌≡◌, ◌≢◌, refl, true, false, none, some, is_some, List, [], ◌∷◌, ◌++◌, ok, arith,
}
use mini_payment_gateway.Prelude.Int.{pos}
use mini_payment_gateway.Domain.Transaction.{Status}
use mini_payment_gateway.Domain.Webhook.{
  WebhookEvent, DeliveryStatus, WebhookDelivery, EventPayload, without_jitter,
}
use mini_payment_gateway.Dispatcher.Attempts.{is_finished, drive, drive_ends}
use mini_payment_gateway.Dispatcher.{World, Tick, deliver, poll_round}
use mini_payment_gateway.Dispatcher.Outbox.{
  System, handed, ◌⟶*◌, done, then_step, polled, Exclusive,
}
use mini_payment_gateway.Dispatcher.Outbox.Exclusion.{run_Exclusive, finished_stays}
use mini_payment_gateway.Dispatcher.Outbox.Progress.{poll_takes}
use mini_payment_gateway.Merchants.{MerchantStatus, Merchant}
use mini_payment_gateway.Prelude.Lists.{All}
use mini_payment_gateway.Repository.{Store, empty_store}
use mini_payment_gateway.Repository.Deliveries.{find_delivery, release_stale, claim_due}
use mini_payment_gateway.Signer.Examples.{toy_hmac}
use mini_payment_gateway.Text.{codes}

abbrev payload : EventPayload
payload = record {
  id = 30;
  event = WebhookEvent.payment_captured;
  created_at = pos 9;
  txn_id = 7;
  merchant_id = 1;
  reference = "order-1";
  amount = pos 1000;
  currency = "USD";
  status = Status.captured;
  captured_amount = pos 1000;
  refunded_amount = pos 0;
  card_last4 = "4242";
  card_brand = "visa";
  failure_code = "";
  metadata = [];
  txn_created_at = pos 5;
}

abbrev queued : WebhookDelivery
queued = record {
  id = 40;
  merchant_id = 1;
  transaction_id = 7;
  event_type = WebhookEvent.payment_captured;
  payload = payload;
  status = DeliveryStatus.pending;
  attempt_count = 0;
  next_attempt_at = pos 9;
  last_error = "";
  created_at = pos 9;
  updated_at = pos 9;
}

abbrev merchant : Merchant
merchant = record {
  id = 1;
  name = codes "Shop";
  email = codes "a@b";
  api_key = codes "pk";
  api_secret_enc = codes "AAAA";
  webhook_url = codes "https://shop.example/hook";
  webhook_secret_enc = codes "AAAA";
  status = MerchantStatus.active;
  created_at = pos 1;
  updated_at = pos 1;
}

-- An endpoint that answers with a status, and a cipher that opens everything.
abbrev endpoint : ℕ → World
endpoint status = record {
  merchant_fault = none;
  merchants = merchant ∷ [];
  aead = record {
    nonce_size = 1;
    seal = λ nonce text. text;
    open_sealed = λ nonce text. some text;
  };
  hmac = toy_hmac;
  payload_json = λ p. codes "{}";
  client = λ req. ok status;
  reason_text = λ reason. "reason";
  max_attempts = 2;
  jittered = without_jitter;
  now = pos 20;
}

abbrev attempts : List World
attempts = endpoint 503 ∷ endpoint 500 ∷ endpoint 200 ∷ []

drive_ends_example :
    (is_finished (drive attempts queued).status ≡ true)
    × ((drive attempts queued).attempt_count ≤ 2)
drive_ends_example =
    drive_ends 2 attempts queued (refl, (refl, (refl, tt))) (omega arith) (omega arith)

abbrev store : Store
store = record empty_store { deliveries = queued ∷ [] }

abbrev tick : Tick
tick = record {
  faults = λ k. none;
  workers = 1;
  locked = λ id. false;
  released_at = pos 10;
  db_released_at = pos 10;
  claimed_at = pos 11;
  db_claimed_at = pos 11;
}

abbrev start : System
start = (store, [])

abbrev claimed_state : System
claimed_state = ((poll_round tick store).1, handed (poll_round tick store).0 ++ [])

-- A poller claims the row.
claiming : start ⟶* claimed_state
claiming = then_step (done start) (polled tick store [] tt)

start-Exclusive : Exclusive start
start-Exclusive = record { keyed = (tt, tt); distinct = tt; claims = tt }

run_Exclusive_example : Exclusive claimed_state
run_Exclusive_example = run_Exclusive claiming start-Exclusive

abbrev delivered : WebhookDelivery
delivered = record queued { status = DeliveryStatus.delivered; attempt_count = 1 }

abbrev quiet : Store
quiet = record empty_store { deliveries = delivered ∷ [] }

quiet-Exclusive : Exclusive (quiet, [])
quiet-Exclusive = record { keyed = (tt, tt); distinct = tt; claims = tt }

-- A poll after the delivery.
abbrev polled_quiet : System
polled_quiet = ((poll_round tick quiet).1, handed (poll_round tick quiet).0 ++ [])

finished_stays_example :
    (find_delivery 40 polled_quiet.0.deliveries ≡ some delivered)
    × All (λ d. 40 ≢ d.id) polled_quiet.1
finished_stays_example =
    finished_stays 40 delivered (then_step (done (quiet, [])) (polled tick quiet [] tt))
      quiet-Exclusive refl refl

poll_takes_example : is_some (find_delivery 40 (handed (poll_round tick store).0)) ≡ true
unfolding release_stale
poll_takes_example =
    poll_takes tick store 40 {row = queued} (λ k. refl) (omega arith) refl (omega arith) refl refl

-- A worker died with the row; five minutes later it is handed out again.
abbrev stuck : Store
stuck = record empty_store {
  deliveries = record queued { status = DeliveryStatus.delivering } ∷ [];
}

abbrev later : Tick
later = record tick { released_at = pos 300000000010; claimed_at = pos 300000000011 }

stuck_taken :
    (handed (poll_round tick stuck).0 ≡ [])
    × (is_some (find_delivery 40 (handed (poll_round later stuck).0)) ≡ true)
unfolding poll_round release_stale claim_due
stuck_taken = (refl, refl)

delivered_at_once : (deliver (endpoint 200) queued).status ≡ DeliveryStatus.delivered
unfolding deliver
delivered_at_once = refl

refused_once : (deliver (endpoint 500) queued).status ≡ DeliveryStatus.failed
unfolding deliver
refused_once = refl
