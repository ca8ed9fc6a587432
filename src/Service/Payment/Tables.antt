-- ===== src/Service/Payment/Tables.antt =====
-- The three tables after a database transaction that changes one row, books lines and queues one
-- webhook, with every column written out.
use mini_payment_gateway.Prelude.{
  ℕ, suc, ◌≡◌, refl, sym, ap, ◌∙◌, true, some, List, [], ◌∷◌, ◌++◌, Result, ok, err, is_ok, ◌==◌,
  if◌then◌else◌, arith,
}
use mini_payment_gateway.Money.{Amount}
use mini_payment_gateway.Domain.Errors.{Error}
use mini_payment_gateway.Domain.Transaction.{Transaction}
use mini_payment_gateway.Domain.Ledger.{Account, Direction, EventType, EntryGroup, LedgerEntry}
use mini_payment_gateway.Domain.Webhook.{WebhookEvent, DeliveryStatus, WebhookDelivery}
use mini_payment_gateway.Repository.{Store}
use mini_payment_gateway.Repository.Transactions.{find_id, written}
use mini_payment_gateway.Repository.Transactions.Rows.{
  find_id-has_id, find_id_self, find_id-write_rows, find-is_version_of,
}
use mini_payment_gateway.Repository.Entries.Appends.{numbered}
use mini_payment_gateway.Service.Payment.{Env}
use mini_payment_gateway.Service.Payment.Writes.{Booked, webhook}

-- What a database transaction on the row `fresh` has written, where `after` is the row it leaves.
module _ (env : Env) (fresh : Transaction) where
  -- One line of the journal, by its number.
  abbrev pub line : ℕ → Account → Direction → Amount → EventType → LedgerEntry
  line number account direction amount event = record {
    id = number;
    entry_group_id = env.group_id;
    transaction_id = fresh.id;
    account = account;
    merchant_id = some fresh.merchant_id;
    direction = direction;
    amount = amount;
    currency = fresh.currency;
    event_type = event;
    created_at = env.now;
  }

  -- The outbox row that tells the merchant of an event.
  abbrev pub announcement : Transaction → WebhookEvent → WebhookDelivery
  announcement after event = record {
    id = env.delivery_id;
    merchant_id = fresh.merchant_id;
    transaction_id = fresh.id;
    event_type = event;
    payload = record {
      id = env.event_id;
      event = event;
      created_at = env.payload_at;
      txn_id = fresh.id;
      merchant_id = fresh.merchant_id;
      reference = fresh.reference;
      amount = fresh.amount;
      currency = fresh.currency;
      status = after.status;
      captured_amount = after.captured_amount;
      refunded_amount = after.refunded_amount;
      card_last4 = fresh.card_last4;
      card_brand = fresh.card_brand;
      failure_code = fresh.failure_code;
      metadata = fresh.metadata;
      txn_created_at = fresh.created_at;
    };
    status = DeliveryStatus.pending;
    attempt_count = 0;
    next_attempt_at = env.queued_at;
    last_error = "";
    created_at = env.queued_at;
    updated_at = env.queued_at;
  }

  -- The three tables after it: the row of one id, the lines at the end of the journal, and one
  -- announcement at the end of the outbox; every other row is found as it was.
  pub record Writes (after : Transaction) (tx_id : ℕ) (lines : List LedgerEntry)
      (event : WebhookEvent) (s s' : Store) : Type 0 where
    pub rows :
        (id : ℕ)
        → find_id id s'.transactions
          ≡ (if id == tx_id then some after else find_id id s.transactions)
    pub journal : s'.entries ≡ s.entries ++ lines
    pub outbox : s'.deliveries ≡ s.deliveries ++ announcement after event ∷ []

-- The version goes up by one, and the time is the database's.
abbrev pub stamped : Env → Transaction → Transaction
stamped env t = record t { version = suc t.version; updated_at = env.db_now }

-- How the row in the table and the lines come out of the shared tail.
module _ {env : Env} {fresh moved : Transaction} {event : WebhookEvent}
    {group_of : Transaction → Result Error EntryGroup} (tx_id : ℕ) {s s' : Store} {t : Transaction}
    (found : find_id tx_id s.transactions ≡ some fresh) (same : moved.id ≡ fresh.id)
    (version : moved.version ≡ fresh.version)
    (booked : Booked env moved event group_of s t s') where
  found_moved : find_id moved.id s.transactions ≡ some fresh
  found_moved = rw same (find_id_self tx_id s.transactions found)

  pub booked_result : t ≡ stamped env moved
  booked_result =
      let e = find-is_version_of moved s.transactions found_moved version in
      let row : booked.row ≡ fresh = cc (e, booked.found) in booked.result ∙ rw (row, version) refl

  booked_rows :
      (id : ℕ)
      → find_id id s'.transactions
        ≡ (if id == tx_id then some (written moved env.db_now fresh) else find_id id s.transactions)
  booked_rows id =
      ap (λ x. find_id id x.transactions) booked.store
      ∙ find_id-write_rows moved env.db_now id s.transactions found_moved version
      ∙ ap
          (λ k.
            if id == k then some (written moved env.db_now fresh) else find_id id s.transactions)
          (same ∙ find_id-has_id tx_id s.transactions found)

  -- The tables, where the columns that are written and the payload are those of the row and the
  -- lines are known.
  pub booked-Writes :
      (lines : List LedgerEntry)
      → written moved env.db_now fresh ≡ stamped env moved
      → webhook env (stamped env moved) event ≡ announcement env fresh (stamped env moved) event
      → numbered s.entry_seq booked.group.entries ≡ lines
      → Writes env fresh t tx_id lines event s s'
  booked-Writes lines columns payload same_lines = record {
    rows = λ id.
        booked_rows id
        ∙ ap (λ r. if id == tx_id then some r else find_id id s.transactions)
            (columns ∙ sym booked_result);
    journal = ap (λ x. x.entries) booked.store ∙ ap (λ es. s.entries ++ es) same_lines;
    outbox =
        ap (λ x. x.deliveries) booked.store
        ∙ rw booked_result (ap (λ d. s.deliveries ++ d ∷ []) payload);
  }

-- The two ways in which a query ends.
pub by_outcome :
    (P : Result Error Transaction × Store → Type 0) (p : Result Error Transaction × Store)
    → ((t : Transaction) (s : Store) → p ≡ (ok t, s) → P (ok t, s))
    → ((e : Error) (s : Store) → p ≡ (err e, s) → P (err e, s))
    → P p
by_outcome P (ok t, s) f g = f t s refl
by_outcome P (err e, s) f g = g e s refl

pub err_not_ok :
    {p : Result Error Transaction × Store} {e : Error} {s : Store}
    → p ≡ (err e, s)
    → ¬ (is_ok p.0 ≡ true)
err_not_ok {p} h k = ground arith
