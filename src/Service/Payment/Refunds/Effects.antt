-- ===== src/Service/Payment/Refunds/Effects.antt =====
-- How the database transaction of `Refund` ends, by what it leaves in the tables: the row, the journal
-- and the outbox, written out field by field.
use mini_payment_gateway.Prelude.{
  ℕ, suc, ◌≡◌, refl, ap, ◌∙◌, none, some, List, [], ◌∷◌, Result, ok, err, subst, if◌then◌else◌,
  arith,
}
use mini_payment_gateway.Prelude.Int.{eqb_ℤ, ◌+ℤ◌}
use mini_payment_gateway.Money.{Amount}
use mini_payment_gateway.Domain.Errors.{Error}
use mini_payment_gateway.Domain.Transaction.{Status, Time, Transaction, refund as refund_row}
use mini_payment_gateway.Domain.Transaction.Validity.{
  IsValid, remaining_refundable_exact, refunded_sum,
}
use mini_payment_gateway.Domain.Transaction.Refunds.{Refundable, refund_iff}
use mini_payment_gateway.Domain.Ledger.{Account, Direction, EventType, LedgerEntry}
use mini_payment_gateway.Domain.Ledger.Legs.{refund_group, new_refund_group}
use mini_payment_gateway.Domain.Webhook.{WebhookEvent, build_event_payload, new_webhook_delivery}
use mini_payment_gateway.Repository.{Store, Statement}
use mini_payment_gateway.Repository.Transactions.{find_id}
use mini_payment_gateway.Repository.Entries.Appends.{numbered}
use mini_payment_gateway.Service.Payment.{Env, refund_body}
use mini_payment_gateway.Service.Payment.Writes.{Booked}
use mini_payment_gateway.Service.Payment.Refunds.{refund_body_ok, refund_group_of, refund_fits}
use mini_payment_gateway.Service.Payment.Tables.{
  line, Writes, stamped, booked_result, booked-Writes, by_outcome, err_not_ok,
}
use mini_payment_gateway.Service.Payment.Progress.{refund_body_succeeds}

-- The row after a refund of an amount: the amount is added, and a row whose whole captured amount is
-- returned is refunded.
abbrev pub row_refunded : Amount → Time → Transaction → Transaction
row_refunded amount now t = record t {
  status =
      if eqb_ℤ (t.refunded_amount +ℤ amount) t.captured_amount then Status.refunded else t.status;
  refunded_amount = t.refunded_amount +ℤ amount;
  updated_at = now;
}

module _ {t : Transaction} (valid : IsValid t) (amount : Amount) (now : Time) where
  refund_row_eq :
      (refund_row amount now t).0 ≡ ok tt → (refund_row amount now t).1 ≡ row_refunded amount now t
  unfolding refund_row
  refund_row_eq h = ground (arith, remaining_refundable_exact valid, refunded_sum valid amount)

module _ (env : Env) (amount : Amount) (fresh : Transaction) (seq : ℕ) where
  -- The lines of a refund: the merchant is owed less, and the acquirer owes less.
  abbrev pub refund_lines : List LedgerEntry
  refund_lines =
      line env fresh (suc seq) (Account.merchant_payable fresh.merchant_id) Direction.debit amount
        EventType.refund
      ∷ line env fresh (suc (suc seq)) Account.acquirer_receivable Direction.credit amount
          EventType.refund
      ∷ []

-- What a refund transaction has done when it succeeds.
pub record RefundEffect (env : Env) (merchant_id tx_id : ℕ) (amount : Amount) (fresh : Transaction)
    (s : Store) (t : Transaction) (s' : Store) : Type 0 where
  pub owner : fresh.merchant_id ≡ merchant_id
  pub allowed : Refundable fresh amount
  pub result : t ≡ stamped env (row_refunded amount env.now fresh)
  pub writes :
      Writes env fresh t tx_id
        (refund_lines env amount fresh s.entry_seq)
        WebhookEvent.payment_refunded
        s
        s'

refund_body_effect :
    (env : Env) (merchant_id tx_id : ℕ) (amount : Amount) (s : Store) {fresh t : Transaction}
    {s' : Store}
    → find_id tx_id s.transactions ≡ some fresh
    → IsValid fresh
    → refund_body env merchant_id tx_id amount s ≡ (ok t, s')
    → RefundEffect env merchant_id tx_id amount fresh s t s'
unfolding build_event_payload new_webhook_delivery
refund_body_effect env merchant_id tx_id amount s {fresh} {t} {s'} found valid h =
    let done = refund_body_ok env merchant_id tx_id amount s h in
    let now_fresh : done.fresh ≡ fresh = cc (found, done.found) in
    let accepted : (refund_row amount env.now fresh).0 ≡ ok tt = rw now_fresh at done.accepted in
    let booked =
      subst (λ m. Booked env m WebhookEvent.payment_refunded (refund_group_of env amount) s t s')
        (ap (λ x. (refund_row amount env.now x).1) now_fresh
          ∙ refund_row_eq valid amount env.now accepted)
        done.booked in
    let (fits, positive) = refund_fits amount env.now valid accepted in
    let result = booked_result tx_id found refl refl booked in
    let group : booked.group ≡ refund_group env.group_id t env.now amount =
      cc (booked.made, new_refund_group env.group_id t env.now amount fits positive) in
    record {
      owner = rw now_fresh at done.owned;
      allowed = (refund_iff valid amount env.now).0 accepted;
      result = result;
      writes =
          booked-Writes tx_id found refl refl booked (refund_lines env amount fresh s.entry_seq)
            refl refl
            (ap (λ g. numbered s.entry_seq g.entries) group
              ∙ ap (λ x. numbered s.entry_seq (refund_group env.group_id x env.now amount).entries)
                  result);
    }

-- How a refund transaction on a well-formed row ends: it has done just that, or else some statement
-- failed, the row is not the merchant's, or the rules refuse the refund.
abbrev pub RefundOutcome :
    Env → ℕ → ℕ → Amount → Transaction → Store → Result Error Transaction × Store → Type 0
RefundOutcome env merchant_id tx_id amount fresh s (ok t, s') =
    RefundEffect env merchant_id tx_id amount fresh s t s'
RefundOutcome env merchant_id tx_id amount fresh s (err e, s') = ¬ (
    ((k : Statement) → env.faults k ≡ none)
    × (fresh.merchant_id ≡ merchant_id)
    × Refundable fresh amount)

-- The database transaction of Refund, where its id finds a well-formed row, ends in one of two
-- ways. Either it succeeds, and then the row is the merchant's, the rules allowed the refund, and
-- it has left the row with the amount added to what was refunded, refunded if that is all that was
-- captured, and the version one up, which it gives back; what every other id finds as it was; at
-- the end of the journal the debit of the merchant's account and the credit of the acquirer's by
-- the amount; and one pending webhook with the new row at the end of the outbox. Or it fails, and
-- then some statement may fail, the row is not the merchant's, or the rules refuse the refund.
pub refund_body_outcome :
    (env : Env) (merchant_id tx_id : ℕ) (amount : Amount) (s : Store) {fresh : Transaction}
    → find_id tx_id s.transactions ≡ some fresh
    → IsValid fresh
    → RefundOutcome env merchant_id tx_id amount fresh s
        (refund_body env merchant_id tx_id amount s)
refund_body_outcome env merchant_id tx_id amount s {fresh} found valid =
    by_outcome (RefundOutcome env merchant_id tx_id amount fresh s) _
      (λ t s' h. refund_body_effect env merchant_id tx_id amount s found valid h)
      λ e s' h (none_fail, owned, allowed).
        err_not_ok h
          (refund_body_succeeds env none_fail merchant_id tx_id amount s found owned valid allowed)
