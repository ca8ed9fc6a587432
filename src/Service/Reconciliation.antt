-- ===== src/Service/Reconciliation.antt =====
-- internal/service/reconciliation_service.go: the comparison of a day's transactions with the journal,
-- and the settlement.
pub mod Settlement
pub mod Reports
mod Examples
use mini_payment_gateway.Prelude.{
  ℕ, suc, Bool, true, false, not, ◌&&◌, List, [], ◌∷◌, ◌>>=◌, ◌>>◌, pure, modify, from_result, ◌==◌,
  if◌then◌else◌,
}
use mini_payment_gateway.Prelude.Int.{ℤ, pos, ltb_ℤ, eqb_ℤ}
use mini_payment_gateway.Prelude.Int64.{add64, sub64}
use mini_payment_gateway.Money.{Amount, fee}
use mini_payment_gateway.Domain.Transaction.{
  Status, Transaction, status_eq, settle as settle_row, net_payable,
}
use mini_payment_gateway.Domain.Ledger.{new_settlement_entry_group}
use mini_payment_gateway.Domain.Webhook.{WebhookEvent}
use mini_payment_gateway.Repository.{Query, with_tx}
use mini_payment_gateway.Repository.Transactions.{get_for_update, update}
use mini_payment_gateway.Repository.Entries.{insert_group}
use mini_payment_gateway.Service.Payment.{Env, Others, on_row, queue_webhook}

-- The payout of a settled row, if there is anything to pay.
pub book_payout : Env → Transaction → Query (Unit {0})
book_payout env t =
    if ltb_ℤ (pos 0) (net_payable env.fee_bps t)
    then from_result (new_settlement_entry_group env.group_id t (net_payable env.fee_bps t) env.now)
      >>= insert_group env.faults
    else pure tt

-- The part of the database transaction of `settle` for a row that is still captured. Its webhook has
-- the time of the settlement throughout.
pub settle_captured : Env → Transaction → Query (Unit {0})
settle_captured env fresh = do
  moved ← on_row (settle_row env.now) fresh
  saved ← update env.faults moved env.db_now
  book_payout env saved
  queue_webhook (record env { payload_at = env.now; queued_at = env.now }) saved
      WebhookEvent.payment_settled

-- The database transaction of `settle`; a row that changed since the scan is left alone.
pub settle_body : Env → ℕ → Query (Unit {0})
settle_body env tx_id = do
  fresh ← get_for_update env.faults tx_id
  if not (status_eq fresh.status Status.captured) then pure tt else settle_captured env fresh

-- One round of the loop: the scanned transaction, what others commit before it, and the environment.
pub record Round : Type 0 where
  pub txn : Transaction
  pub others : Others
  pub env : Env

-- `settle`: the rows that the loop has counted.
unfoldable pub settle : List Round → Query ℕ
settle [] = pure 0
settle (r ∷ rs) = if not (status_eq r.txn.status Status.captured) then settle rs else (do
  modify r.others
  with_tx r.env.faults (settle_body r.env r.txn.id)
  settled ← settle rs
  pure (suc settled))
