-- ===== src/Service/Payment/Examples.antt =====
-- The theorems on requests at concrete stores, and runs of the requests.
use mini_payment_gateway.Prelude.{
  ◌≡◌, refl, inl, inr, true, none, some, ok, [], ◌∷◌, ◌>>=◌, ◌==◌, Bool-cases, arith,
}
use mini_payment_gateway.Prelude.Int.{pos}
use mini_payment_gateway.Money.{fee}
use mini_payment_gateway.Domain.Errors.{Error}
use mini_payment_gateway.Domain.Transaction.{
  Status, Transaction, remaining_capturable, capture as capture_row, refund as refund_row,
}
use mini_payment_gateway.Domain.Ledger.{new_capture_entry_group, new_refund_entry_group}
use mini_payment_gateway.Domain.Transaction.Validity.{IsValid}
use mini_payment_gateway.Repository.{Store, Statement, Faults, empty_store, with_tx}
use mini_payment_gateway.Repository.Transactions.{get_by_merchant_and_id, get_for_update, update}
use mini_payment_gateway.Repository.Books.{IsSound}
use mini_payment_gateway.Repository.Books.Groups.{captured_of_nil, refunded_of_nil, balanced_nil}
use mini_payment_gateway.Repository.Entries.{insert_group}
use mini_payment_gateway.Service.Payment.{
  Env, Answer, Others, AuthorizeInput, AuthorizeResponse, queue_webhook, capture_check,
  capture_body, refund_body, capture, refund, void, authorize,
}
use mini_payment_gateway.Service.Payment.Captures.Effects.{CaptureEffect, capture_body_outcome}
use mini_payment_gateway.Service.Payment.Refunds.Effects.{RefundEffect, refund_body_outcome}
use mini_payment_gateway.Service.Payment.Requests.{
  capture-IsSound, refund-IsSound, void-IsSound, authorize-IsSound,
}

abbrev no_faults : Faults
no_faults k = none

abbrev pub env : Env
env = record {
  faults = no_faults;
  fee_bps = pos 250;
  checked_at = pos 100;
  now = pos 101;
  db_now = pos 102;
  payload_at = pos 103;
  queued_at = pos 104;
  txn_id = 7;
  group_id = 20;
  event_id = 30;
  delivery_id = 40;
}

abbrev pub held : Transaction
held = record {
  id = 7;
  merchant_id = 1;
  reference = "order-1";
  amount = pos 1000;
  currency = "USD";
  status = Status.authorized;
  captured_amount = pos 0;
  refunded_amount = pos 0;
  card_last4 = "4242";
  card_brand = "visa";
  acquirer_ref = "ref";
  failure_code = "";
  metadata = [];
  version = 1;
  authorized_at = some (pos 50);
  captured_at = none;
  settled_at = none;
  created_at = pos 40;
  updated_at = pos 50;
}

abbrev pub store : Store
store = record empty_store { transactions = held ∷ [] }

held-IsValid : IsValid held
held-IsValid = ground arith

pub store-IsSound : IsSound store
store-IsSound = record {
  agrees = λ id. elim (Bool-cases (7 == id)) [
    | inl e ↦ rw e (held-IsValid, captured_of_nil id, refunded_of_nil id)
    | inr e ↦ rw e (captured_of_nil id, refunded_of_nil id)
  ];
  balanced = balanced_nil;
}

-- What others commit while a request waits for the acquirer; here they do nothing.
abbrev pub nothing_else : Others
nothing_else s = s

abbrev pub approves : Answer
approves ref amount = ok ref

capture-IsSound_example : IsSound (capture env approves nothing_else 1 7 (pos 600) store).1
capture-IsSound_example =
    capture-IsSound env approves nothing_else 1 7 (pos 600) store (λ t h. h) store-IsSound

abbrev pub captured_row : Transaction
captured_row = record held {
  status = Status.captured;
  captured_amount = pos 600;
  captured_at = some (pos 101);
  version = 2;
  updated_at = pos 102;
}

abbrev captured_store : Store
captured_store = (capture env approves nothing_else 1 7 (pos 600) store).1

capture_succeeds : (capture env approves nothing_else 1 7 (pos 600) store).0 ≡ ok captured_row
unfolding capture capture_check capture_body ◌>>=◌ get_by_merchant_and_id get_for_update with_tx
    update insert_group new_capture_entry_group queue_webhook capture_row remaining_capturable fee
capture_succeeds = refl

refund-IsSound_example : IsSound (refund env approves nothing_else 1 7 (pos 100) captured_store).1
refund-IsSound_example =
    refund-IsSound env approves nothing_else 1 7 (pos 100) captured_store (λ t h. h)
      capture-IsSound_example

void-IsSound_example : IsSound (void env (λ ref. ok ref) nothing_else 1 7 store).1
void-IsSound_example =
    void-IsSound env (λ ref. ok ref) nothing_else 1 7 store (λ t h. h) store-IsSound

abbrev order : AuthorizeInput
order = record {
  merchant_id = 1;
  reference = "order-2";
  amount = pos 500;
  currency = "VND";
  capture = true;
  metadata = [];
}

abbrev response : AuthorizeResponse
response = record { ref = "ref-2"; card_last4 = "4242"; card_brand = "visa" }

abbrev env' : Env
env' = record env { txn_id = 8 }

authorize-IsSound_example :
    IsSound
      (authorize env' (λ t. ok response) nothing_else env' approves nothing_else order store).1
authorize-IsSound_example =
    authorize-IsSound env' env' (λ t. ok response) approves nothing_else nothing_else order store
      (ground arith) (λ t h. h) (λ t h. h) store-IsSound

capture_body_outcome_example :
    CaptureEffect env 1 7 (pos 600) held store captured_row (capture_body env 1 7 (pos 600) store).1
unfolding capture_body ◌>>=◌ get_for_update update insert_group new_capture_entry_group
    queue_webhook capture_row fee
capture_body_outcome_example = capture_body_outcome env 1 7 (pos 600) store refl held-IsValid

abbrev refunded_row : Transaction
refunded_row = record captured_row { refunded_amount = pos 100; version = 3 }

abbrev sold : Store
sold = record store { transactions = captured_row ∷ [] }

captured_row-IsValid : IsValid captured_row
captured_row-IsValid = ground arith

refund_body_outcome_example :
    RefundEffect env 1 7
      (pos 100)
      captured_row
      sold
      refunded_row
      (refund_body env 1 7 (pos 100) sold).1
unfolding refund_body ◌>>=◌ get_for_update update insert_group new_refund_entry_group queue_webhook
    refund_row
refund_body_outcome_example = refund_body_outcome env 1 7 (pos 100) sold refl captured_row-IsValid

-- The commit fails after a capture has written its row and its lines.
abbrev no_commit : Faults
no_commit Statement.commit = some Error.internal
no_commit _ = none

commit_fails : (with_tx no_commit (capture_body env 1 7 (pos 600)) store).1 ≡ store
unfolding with_tx capture_body ◌>>=◌ get_for_update update insert_group new_capture_entry_group
    queue_webhook capture_row fee
commit_fails = refl
