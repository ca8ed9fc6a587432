-- ===== src/Service/Payment/Captures/Effects.antt =====
-- How the database transaction of `Capture` ends, by what it leaves in the tables: the row, the journal
-- and the outbox, written out field by field.
use mini_payment_gateway.Prelude.{
  ℕ, suc, ◌≡◌, refl, ap, ◌∙◌, none, some, List, [], ◌∷◌, Result, ok, err, subst, inl, inr,
  Bool-cases, if◌then◌else◌, arith,
}
use mini_payment_gateway.Prelude.Int.{pos, ltb_ℤ, ◌≤ℤ◌, ◌<ℤ◌, ◌+ℤ◌, ◌-ℤ◌}
use mini_payment_gateway.Money.{Amount, fee}
use mini_payment_gateway.Domain.Errors.{Error}
use mini_payment_gateway.Domain.Transaction.{Status, Time, Transaction, capture as capture_row}
use mini_payment_gateway.Domain.Transaction.Validity.{
  IsValid, remaining_capturable_exact, captured_sum,
}
use mini_payment_gateway.Domain.Transaction.Captures.{Capturable, capture_iff}
use mini_payment_gateway.Domain.Ledger.{Account, Direction, EventType, LedgerEntry}
use mini_payment_gateway.Domain.Ledger.Legs.{
  capture_group, new_capture_group, new_capture_group_needs,
}
use mini_payment_gateway.Domain.Webhook.{WebhookEvent, build_event_payload, new_webhook_delivery}
use mini_payment_gateway.Repository.{Store, Statement}
use mini_payment_gateway.Repository.Transactions.{find_id}
use mini_payment_gateway.Repository.Entries.Appends.{numbered}
use mini_payment_gateway.Service.Payment.{Env, capture_body}
use mini_payment_gateway.Service.Payment.Writes.{Booked}
use mini_payment_gateway.Service.Payment.Captures.{capture_body_ok, capture_group_of, capture_fits}
use mini_payment_gateway.Service.Payment.Tables.{
  line, Writes, stamped, booked_result, booked-Writes, by_outcome, err_not_ok,
}
use mini_payment_gateway.Service.Payment.Progress.{capture_body_succeeds}

-- The row after a capture of an amount: the amount is added, the time of the first capture stays.
abbrev pub row_captured : Amount → Time → Transaction → Transaction
row_captured amount now t = record t {
  status = Status.captured;
  captured_amount = t.captured_amount +ℤ amount;
  captured_at = elim t.captured_at [ none ↦ some now | some at ↦ some at ];
  updated_at = now;
}

module _ {t : Transaction} (valid : IsValid t) (amount : Amount) (now : Time) where
  capture_row_eq :
      (capture_row amount now t).0 ≡ ok tt
      → (capture_row amount now t).1 ≡ row_captured amount now t
  unfolding capture_row
  capture_row_eq h = ground (arith, remaining_capturable_exact valid, captured_sum valid amount)

module _ (env : Env) (amount : Amount) (fresh : Transaction) (seq : ℕ) where
  -- The lines of a capture: the acquirer owes the amount, the merchant is owed what the fee leaves,
  -- and a fee above zero is revenue.
  abbrev pub capture_lines : List LedgerEntry
  capture_lines =
      line env fresh (suc seq) Account.acquirer_receivable Direction.debit amount EventType.capture
      ∷ line env fresh (suc (suc seq)) (Account.merchant_payable fresh.merchant_id) Direction.credit
          (amount -ℤ fee amount env.fee_bps) EventType.capture
      ∷ (if ltb_ℤ (pos 0) (fee amount env.fee_bps)
          then line env fresh (suc (suc (suc seq))) Account.platform_fee_revenue Direction.credit
              (fee amount env.fee_bps) EventType.fee
            ∷ []
          else [])

-- The lines of the group that is made for the row as it was saved.
numbered-capture_group :
    (env : Env) (amount : Amount) (fresh : Transaction) (seq : ℕ)
    → numbered seq
        (capture_group env.group_id
          (stamped env (row_captured amount env.now fresh))
          env.now
          amount
          (fee amount env.fee_bps)).entries
      ≡ capture_lines env amount fresh seq
numbered-capture_group env amount fresh seq =
    elim (Bool-cases (ltb_ℤ (pos 0) (fee amount env.fee_bps))) [
      | inl e ↦ rw e refl
      | inr e ↦ rw e refl
    ]

-- What a capture transaction has done when it succeeds.
pub record CaptureEffect (env : Env) (merchant_id tx_id : ℕ) (amount : Amount) (fresh : Transaction)
    (s : Store) (t : Transaction) (s' : Store) : Type 0 where
  pub owner : fresh.merchant_id ≡ merchant_id
  pub allowed : Capturable fresh amount env.now
  pub charged : (pos 0 ≤ℤ fee amount env.fee_bps) × (fee amount env.fee_bps <ℤ amount)
  pub result : t ≡ stamped env (row_captured amount env.now fresh)
  pub writes :
      Writes env fresh t tx_id
        (capture_lines env amount fresh s.entry_seq)
        WebhookEvent.payment_captured
        s
        s'

capture_body_effect :
    (env : Env) (merchant_id tx_id : ℕ) (amount : Amount) (s : Store) {fresh t : Transaction}
    {s' : Store}
    → find_id tx_id s.transactions ≡ some fresh
    → IsValid fresh
    → capture_body env merchant_id tx_id amount s ≡ (ok t, s')
    → CaptureEffect env merchant_id tx_id amount fresh s t s'
unfolding build_event_payload new_webhook_delivery
capture_body_effect env merchant_id tx_id amount s {fresh} {t} {s'} found valid h =
    let done = capture_body_ok env merchant_id tx_id amount s h in
    let charge = fee amount env.fee_bps in
    let now_fresh : done.fresh ≡ fresh = cc (found, done.found) in
    let accepted : (capture_row amount env.now fresh).0 ≡ ok tt = rw now_fresh at done.accepted in
    let booked =
      subst (λ m. Booked env m WebhookEvent.payment_captured (capture_group_of env amount) s t s')
        (ap (λ x. (capture_row amount env.now x).1) now_fresh
          ∙ capture_row_eq valid amount env.now accepted)
        done.booked in
    let fits = capture_fits amount env.now valid accepted in
    let (p, low, high) =
      new_capture_group_needs env.group_id t env.now amount fits charge {group = booked.group}
        booked.made in
    let result = booked_result tx_id found refl refl booked in
    let group : booked.group ≡ capture_group env.group_id t env.now amount charge =
      cc (booked.made, new_capture_group env.group_id t env.now amount fits charge low high) in
    record {
      owner = rw now_fresh at done.owned;
      allowed = (capture_iff valid amount env.now).0 accepted;
      charged = (low, high);
      result = result;
      writes =
          booked-Writes tx_id found refl refl booked (capture_lines env amount fresh s.entry_seq)
            refl refl
            (ap (λ g. numbered s.entry_seq g.entries) group
              ∙ ap
                  (λ x.
                    numbered s.entry_seq
                      (capture_group env.group_id x env.now amount charge).entries)
                  result
              ∙ numbered-capture_group env amount fresh s.entry_seq);
    }

-- How a capture transaction on a well-formed row ends: it has done just that, or else some statement
-- failed, the row is not the merchant's, the rules refuse the capture, or the fee is out of bounds.
abbrev pub CaptureOutcome :
    Env → ℕ → ℕ → Amount → Transaction → Store → Result Error Transaction × Store → Type 0
CaptureOutcome env merchant_id tx_id amount fresh s (ok t, s') =
    CaptureEffect env merchant_id tx_id amount fresh s t s'
CaptureOutcome env merchant_id tx_id amount fresh s (err e, s') = ¬ (
    ((k : Statement) → env.faults k ≡ none)
    × (fresh.merchant_id ≡ merchant_id)
    × Capturable fresh amount env.now
    × (pos 0 ≤ℤ fee amount env.fee_bps)
    × (fee amount env.fee_bps <ℤ amount))

-- The database transaction of Capture, where its id finds a well-formed row, ends in one of two
-- ways. Either it succeeds, and then the row is the merchant's, the rules allowed the capture, the
-- fee is at least zero and below the amount, and it has left the row captured, with the amount
-- added, the time of the first capture, and the version one up, which it gives back; what every
-- other id finds as it was; at the end of the journal the debit of the acquirer's account by the
-- amount, the credit of the merchant's by the rest after the fee, and the credit of the fee if it
-- is above zero; and one pending webhook with the new row at the end of the outbox. Or it fails,
-- and then some statement may fail, the row is not the merchant's, the rules refuse the capture, or
-- the fee is out of those bounds.
pub capture_body_outcome :
    (env : Env) (merchant_id tx_id : ℕ) (amount : Amount) (s : Store) {fresh : Transaction}
    → find_id tx_id s.transactions ≡ some fresh
    → IsValid fresh
    → CaptureOutcome env merchant_id tx_id amount fresh s
        (capture_body env merchant_id tx_id amount s)
capture_body_outcome env merchant_id tx_id amount s {fresh} found valid =
    by_outcome (CaptureOutcome env merchant_id tx_id amount fresh s) _
      (λ t s' h. capture_body_effect env merchant_id tx_id amount s found valid h)
      λ e s' h (none_fail, owned, allowed, low, high). err_not_ok h (
        capture_body_succeeds env none_fail merchant_id tx_id amount s found owned valid allowed low
          high)
