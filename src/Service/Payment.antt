-- ===== src/Service/Payment.antt =====
-- internal/service/payment_service.go: authorize, capture, refund and void. Each has a check of the
-- row, a call of the acquirer with no database transaction open, and a database transaction that
-- locks the row, applies the same rules to it as it is by then, and writes. What other requests
-- commit during the call stands between the two as a function on the store.
pub mod Writes
pub mod Captures
pub mod Refunds
pub mod Tables
pub mod Holds
pub mod Requests
pub mod Progress
pub mod Checks
pub mod Refusals
pub mod Isolation
pub mod Examples
use mini_payment_gateway.Prelude.{
  ℕ, String, Bool, true, false, not, ◌||◌, List, Result, ok, err, ◌>>=◌, ◌>>◌, pure, raise,
  raise_if, modify, from_result, ◌==◌, str_eq, if◌then◌else◌,
}
use mini_payment_gateway.Prelude.Int.{ℤ, pos, eqb_ℤ}
use mini_payment_gateway.Money.{Amount, Currency, fee}
use mini_payment_gateway.Domain.Errors.{DeclineCode, Error, decline_code}
use mini_payment_gateway.Domain.Transaction.{
  Time, Status, Transaction, Method, status_eq, new_transaction, remaining_capturable,
  remaining_refundable, authorize as authorize_row, fail, void as void_row, capture as capture_row,
  refund as refund_row,
}
use mini_payment_gateway.Domain.Ledger.{new_capture_entry_group, new_refund_entry_group}
use mini_payment_gateway.Domain.Webhook.{WebhookEvent, build_event_payload, new_webhook_delivery}
use mini_payment_gateway.Repository.{Store, Faults, Query, with_tx}
use mini_payment_gateway.Repository.Transactions.{
  create, get_for_update, get_by_merchant_and_id, get_by_reference, update,
}
use mini_payment_gateway.Repository.Entries.{insert_group}
use mini_payment_gateway.Repository.Deliveries

-- What one call of the service reads from outside: which statements fail, the clock at each point
-- where it is read, and the fresh ids.
pub record Env : Type 0 where
  pub faults : Faults
  pub fee_bps : ℤ
  pub checked_at : Time
  pub now : Time
  pub db_now : Time
  pub payload_at : Time
  pub queued_at : Time
  pub txn_id : ℕ
  pub group_id : ℕ
  pub event_id : ℕ
  pub delivery_id : ℕ

-- A method on a local copy of a row: its error ends the query.
abbrev pub on_row : Method → Transaction → Query Transaction
on_row m t s = let (r, t') = m t in elim r [ ok u ↦ (ok t', s) | err e ↦ (err e, s) ]

-- `queueWebhook`.
unfoldable pub queue_webhook : Env → Transaction → WebhookEvent → Query (Unit {0})
unfolding build_event_payload new_webhook_delivery Deliveries.create
queue_webhook env txn event = Deliveries.create env.faults (
    new_webhook_delivery env.delivery_id txn.merchant_id txn.id event
      (build_event_payload env.event_id event txn env.payload_at) env.queued_at)

-- The guard `fresh.MerchantID != merchantID`.
abbrev pub owned_by : ℕ → Transaction → Query (Unit {0})
owned_by merchant_id t = raise_if (not (t.merchant_id == merchant_id)) Error.not_found

-- `amount == 0` asks for everything that remains.
abbrev pub or_all : Amount → Amount → Amount
or_all amount remaining = if eqb_ℤ amount (pos 0) then remaining else amount

-- The first part of `Capture`: the amount that is asked of the acquirer, and its reference.
unfoldable pub capture_check : Env → ℕ → ℕ → Amount → Query (Amount × String)
capture_check env merchant_id tx_id amount = do
  txn ← get_by_merchant_and_id env.faults merchant_id tx_id
  let asked = or_all amount (remaining_capturable txn)
  on_row (capture_row asked env.checked_at) txn
  pure (asked, txn.acquirer_ref)

-- The body of the database transaction of `Capture`.
unfoldable pub capture_body : Env → ℕ → ℕ → Amount → Query Transaction
capture_body env merchant_id tx_id amount = do
  fresh ← get_for_update env.faults tx_id
  owned_by merchant_id fresh
  moved ← on_row (capture_row amount env.now) fresh
  saved ← update env.faults moved env.db_now
  group ←
      from_result
        (new_capture_entry_group env.group_id saved amount (fee amount env.fee_bps) env.now)
  insert_group env.faults group
  queue_webhook env saved WebhookEvent.payment_captured
  pure saved

-- What other requests commit, and what the acquirer answers to a reference and an amount.
abbrev pub Others : Type 0
Others = Store → Store

abbrev pub Answer : Type 0
Answer = String → Amount → Result Error String

-- `Capture`.
unfoldable pub capture : Env → Answer → Others → ℕ → ℕ → Amount → Query Transaction
capture env answer others merchant_id tx_id amount = do
  (asked, acquirer_ref) ← capture_check env merchant_id tx_id amount
  from_result (answer acquirer_ref asked)
  modify others
  with_tx env.faults (capture_body env merchant_id tx_id asked)

pub refund_check : Env → ℕ → ℕ → Amount → Query (Amount × String)
refund_check env merchant_id tx_id amount = do
  txn ← get_by_merchant_and_id env.faults merchant_id tx_id
  let asked = or_all amount (remaining_refundable txn)
  on_row (refund_row asked env.checked_at) txn
  pure (asked, txn.acquirer_ref)

pub refund_body : Env → ℕ → ℕ → Amount → Query Transaction
refund_body env merchant_id tx_id amount = do
  fresh ← get_for_update env.faults tx_id
  owned_by merchant_id fresh
  moved ← on_row (refund_row amount env.now) fresh
  saved ← update env.faults moved env.db_now
  group ← from_result (new_refund_entry_group env.group_id saved amount env.now)
  insert_group env.faults group
  queue_webhook env saved WebhookEvent.payment_refunded
  pure saved

-- `Refund`.
pub refund : Env → Answer → Others → ℕ → ℕ → Amount → Query Transaction
refund env answer others merchant_id tx_id amount = do
  (asked, acquirer_ref) ← refund_check env merchant_id tx_id amount
  from_result (answer acquirer_ref asked)
  modify others
  with_tx env.faults (refund_body env merchant_id tx_id asked)

pub void_body : Env → ℕ → ℕ → Query Transaction
void_body env merchant_id tx_id = do
  fresh ← get_for_update env.faults tx_id
  owned_by merchant_id fresh
  moved ← on_row (void_row env.now) fresh
  saved ← update env.faults moved env.db_now
  queue_webhook env saved WebhookEvent.payment_voided
  pure saved

-- `Void`; no money moves, so nothing is booked.
pub void : Env → (String → Result Error String) → Others → ℕ → ℕ → Query Transaction
void env answer others merchant_id tx_id = do
  txn ← get_by_merchant_and_id env.faults merchant_id tx_id
  on_row (void_row env.checked_at) txn
  from_result (answer txn.acquirer_ref)
  modify others
  with_tx env.faults (void_body env merchant_id tx_id)

-- `finalizeFailure` on the locked row.
pub fail_row : Env → DeclineCode → Transaction → Query (Unit {0})
fail_row env code fresh = do
  moved ← on_row (fail (decline_code code) env.now) fresh
  saved ← update env.faults moved env.db_now
  queue_webhook env saved WebhookEvent.payment_failed

-- The body of `finalizeFailure`; a transaction that someone else has resolved is left alone.
pub failure_body : Env → ℕ → DeclineCode → Query (Unit {0})
failure_body env tx_id code = do
  fresh ← get_for_update env.faults tx_id
  if not (status_eq fresh.status Status.created) then pure tt else fail_row env code fresh

-- `AuthorizeInput`; the card goes to the acquirer only, whose answer is a parameter.
pub record AuthorizeInput : Type 0 where
  pub merchant_id : ℕ
  pub reference : String
  pub amount : Amount
  pub currency : Currency
  pub capture : Bool
  pub metadata : List (String × String)

-- The acquirer's answer to a hold: the reference, the last four digits and the brand.
pub record AuthorizeResponse : Type 0 where
  pub ref : String
  pub card_last4 : String
  pub card_brand : String

-- The row to go on with where the reference exists: an unfinished authorization of the same amount
-- and currency. In every other case the error of the INSERT comes back.
pub resume : Env → AuthorizeInput → Query Transaction
resume env input s =
    let (r, s') = get_by_reference env.faults input.merchant_id input.reference s in
    elim r [
      | err e ↦ (err Error.duplicate_reference, s')
      | ok existing ↦
          if not (status_eq existing.status Status.created)
          then (err Error.duplicate_reference, s')
          else if not (eqb_ℤ existing.amount input.amount)
              || not (str_eq existing.currency input.currency)
          then (err Error.duplicate_reference, s')
          else (ok existing, s')
    ]

-- `errors.Is(err, domain.ErrDuplicateReference)`.
abbrev is_duplicate : Error → Bool
is_duplicate Error.duplicate_reference = true
is_duplicate _ = false

-- The INSERT of a new row, or else the unfinished one of the same reference.
pub insert_or_resume : Env → AuthorizeInput → Transaction → Query Transaction
insert_or_resume env input txn s =
    let (r, s') = create env.faults txn s in
    elim r [
      | ok u ↦ (ok txn, s')
      | err e ↦ if not (is_duplicate e) then (err e, s') else resume env input s'
    ]

-- The first part of `Authorize`: the row to hold the card for.
pub authorize_row_for : Env → AuthorizeInput → Query Transaction
authorize_row_for env input = do
  txn ← from_result (
      new_transaction env.txn_id input.merchant_id input.reference input.amount input.currency
        input.metadata env.checked_at)
  insert_or_resume env input txn

-- The body of the database transaction that records the hold.
pub authorize_body : Env → ℕ → AuthorizeResponse → Query Transaction
authorize_body env tx_id res = do
  fresh ← get_for_update env.faults tx_id
  raise_if (not (status_eq fresh.status Status.created)) Error.concurrent_modification
  moved ← on_row (authorize_row res.ref res.card_last4 res.card_brand env.now) fresh
  saved ← update env.faults moved env.db_now
  queue_webhook env saved WebhookEvent.payment_authorized
  pure saved

-- The part of `Authorize` after the hold: the write-back, and the capture of the whole amount if the
-- request asks for one. The capture is a call of its own, with an environment of its own.
pub after_hold :
    Env
    → AuthorizeInput
    → ℕ
    → AuthorizeResponse
    → (Transaction → Query Transaction)
    → Query Transaction
after_hold env input tx_id res capture_all = do
  saved ← with_tx env.faults (authorize_body env tx_id res)
  if input.capture then capture_all saved else pure saved

-- What `Authorize` does with the acquirer's answer: a decline is recorded before it is returned; on
-- any other error the row stays as it is.
pub conclude :
    Env
    → AuthorizeInput
    → Others
    → (Transaction → Query Transaction)
    → Transaction
    → Result Error AuthorizeResponse
    → Query Transaction
conclude env input others capture_all txn (ok res) =
    modify others >> after_hold env input txn.id res capture_all
conclude env input others capture_all txn (err (Error.declined code)) =
    modify others
    >> with_tx env.faults (failure_body env txn.id code)
    >> raise (Error.declined code)
conclude env input others capture_all txn (err e) = raise e

-- `Authorize`. The second environment, answer and interference are those of the capture.
pub authorize :
    Env
    → (Transaction → Result Error AuthorizeResponse)
    → Others
    → Env
    → Answer
    → Others
    → AuthorizeInput
    → Query Transaction
authorize env hold others env' answer others' input = do
  txn ← authorize_row_for env input
  conclude env input others
      (λ saved. capture env' answer others' saved.merchant_id saved.id saved.amount) txn (hold txn)
