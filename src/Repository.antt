-- ===== src/Repository.antt =====
-- internal/repository: the tables, and the database transactions of postgres.go. A row of a table is
-- the entity that the scan functions build from it. Each statement runs as SQL defines it, or fails as
-- `fault` says: a theorem for every `fault` holds whatever the database and the network do.
pub mod Transactions
pub mod Entries
pub mod Deliveries
pub mod Books
pub mod Keeps
use mini_payment_gateway.Prelude.{
  ◌≡◌, arith, ℕ, Option, none, some, List, [], Result, ok, err, Action,
}
use mini_payment_gateway.Domain.Errors.{Error}
use mini_payment_gateway.Domain.Transaction.{Transaction}
use mini_payment_gateway.Domain.Ledger.{LedgerEntry}
use mini_payment_gateway.Domain.Webhook.{WebhookDelivery}

-- The tables `transactions`, `ledger_entries` and `webhook_deliveries`, with the sequence that numbers
-- the journal's lines.
pub record Store : Type 0 where
  pub transactions : List Transaction
  pub entries : List LedgerEntry
  pub entry_seq : ℕ
  pub deliveries : List WebhookDelivery

abbrev pub empty_store : Store
empty_store = record { transactions = []; entries = []; entry_seq = 0; deliveries = [] }

-- The statements that may fail.
pub data Statement : Type 0 where
  begin commit : Statement
  insert_transaction select_transaction update_transaction list_transactions : Statement
  -- The INSERT of a line, by the number that the sequence gives it: a later leg may fail alone.
  insert_entry : ℕ → Statement
  aggregate_entries scan_groups : Statement
  insert_delivery update_delivery claim_deliveries release_deliveries : Statement
  select_delivery list_deliveries : Statement

-- Which statement fails, and with which error.
abbrev pub Faults : Type 0
Faults = Statement → Option Error

-- A body that runs on a connection. What it wrote stands also beside an error, until `with_tx` takes
-- it back.
abbrev pub Query : Type 0 → Type 0
Query A = Action Error Store A

-- A statement that fails writes nothing.
abbrev pub statement : {A : Type 0} → Faults → Statement → Query A → Query A
statement faults k body s = elim (faults k) [ some e ↦ (err e, s) | none ↦ body s ]

-- How `DB.WithTx` ends, from the store before the body and what the body came to: a rollback gives
-- the old store back, and a commit keeps the new one.
abbrev finish : {A : Type 0} → Faults → Store → Result Error A × Store → Result Error A × Store
finish faults before (err e, after) = (err e, before)
finish faults before (ok a, after) = elim (faults Statement.commit) [
  | some e ↦ (err e, before)
  | none ↦ (ok a, after)
]

-- `DB.WithTx`. Two such bodies never interleave on a row that both lock, so a body is one step.
unfoldable pub with_tx : {A : Type 0} → Faults → Query A → Query A
with_tx faults body s = elim (faults Statement.begin) [
  | some e ↦ (err e, s)
  | none ↦ finish faults s (body s)
]

-- A database transaction that fails leaves every table as it was.
pub with_tx_rollback :
    {A : Type 0} (faults : Faults) (body : Query A) (s : Store) {e : Error}
    → (with_tx faults body s).0 ≡ err e
    → (with_tx faults body s).1 ≡ s
unfolding with_tx
with_tx_rollback faults body s h = ground arith

-- A database transaction that succeeds has run its whole body and kept what it wrote.
pub with_tx_ok :
    {A : Type 0} (faults : Faults) (body : Query A) (s : Store) {a : A} {s' : Store}
    → with_tx faults body s ≡ (ok a, s')
    → body s ≡ (ok a, s')
unfolding with_tx
with_tx_ok faults body s h = ground arith
