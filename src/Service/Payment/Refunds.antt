-- ===== src/Service/Payment/Refunds.antt =====
-- The database transaction of `Refund`: what it has done when it succeeds, and that it keeps the
-- books sound.
pub mod Effects
use mini_payment_gateway.Prelude.{
  ℕ, ◌≡◌, sym, ap, ◌∙◌, subst₂, some, Result, ok, >>=_elim, ◌==◌, if_same, arith, if_same,
}
use mini_payment_gateway.Domain.Errors.{Error}
use mini_payment_gateway.Domain.Transaction.{Time, Transaction, refund as refund_row}
use mini_payment_gateway.Domain.Ledger.{EntryGroup, new_refund_entry_group}
use mini_payment_gateway.Domain.Webhook.{WebhookEvent}
use mini_payment_gateway.Domain.Transaction.Validity.{IsValid}
use mini_payment_gateway.Domain.Transaction.Refunds.{refund-Refunded, refund-IsValid, refund_iff}
use mini_payment_gateway.Domain.Ledger.Legs.{refund_group, new_refund_group}
use mini_payment_gateway.Prelude.Int.{pos, ◌≤ℤ◌, +ℤ-zero, +ℤ_parts, parts_disjoint}
use mini_payment_gateway.Prelude.Int64.{InRange}
use mini_payment_gateway.Repository.Books.{IsSound, Agrees}
use mini_payment_gateway.Repository.Books.Groups.{
  captured_of-refund, refunded_of-refund, balanced-refund,
}
use mini_payment_gateway.Repository.Books.Postings.{Matches, posted-IsSound}
use mini_payment_gateway.Money.{Amount}
use mini_payment_gateway.Repository.{Store}
use mini_payment_gateway.Repository.Transactions.{find_id}
use mini_payment_gateway.Repository.Transactions.Rows.{get_for_update_ok, find_id_self}
use mini_payment_gateway.Service.Payment.{Env, refund_body}
use mini_payment_gateway.Service.Payment.Writes.{Booked, write_and_book_ok, on_row_ok, owned_by_ok}

-- The group that a refund books for a row as it was saved.
abbrev pub refund_group_of : Env → Amount → Transaction → Result Error EntryGroup
refund_group_of env amount t = new_refund_entry_group env.group_id t amount env.now

-- What a refund that succeeded has done: the row is the merchant's, the domain's rules accepted the
-- refund of the row as it was inside the transaction, and the row, the lines and the webhook are
-- written together.
pub record RefundDone (env : Env) (merchant_id tx_id : ℕ) (amount : Amount) (s : Store)
    (t : Transaction) (s' : Store) : Type 0 where
  pub fresh : Transaction
  pub found : find_id tx_id s.transactions ≡ some fresh
  pub owned : fresh.merchant_id ≡ merchant_id
  pub accepted : (refund_row amount env.now fresh).0 ≡ ok tt
  pub booked :
      Booked env
        (refund_row amount env.now fresh).1
        WebhookEvent.payment_refunded
        (refund_group_of env amount)
        s
        t
        s'

-- A refund transaction that succeeds has found the row, which is the merchant's; the domain's rules
-- accepted the refund of the row as it was inside the transaction; and it has written the row, the
-- lines of its entry group and one webhook, and nothing else.
pub refund_body_ok :
    (env : Env) (merchant_id tx_id : ℕ) (amount : Amount) (s : Store) {t : Transaction} {s' : Store}
    → refund_body env merchant_id tx_id amount s ≡ (ok t, s')
    → RefundDone env merchant_id tx_id amount s t s'
unfolding refund_body
refund_body_ok env merchant_id tx_id amount s {t} {s'} h = >>=_elim _ _ s h λ fresh s₁ h₁ r₁.
    >>=_elim _ _ s₁ r₁ λ u s₂ h₂ r₂. >>=_elim _ _ s₂ r₂ λ moved s₃ h₃ r₃.
      let (found, e₁) = get_for_update_ok env.faults tx_id s h₁ in
      let (owned, e₂) = owned_by_ok merchant_id fresh s₁ h₂ in
      let (accepted, m, e₃) = on_row_ok (refund_row amount env.now) fresh s₂ h₃ in
      record {
        fresh = fresh;
        found = found;
        owned = owned;
        accepted = accepted;
        booked =
            subst₂
              (λ x y.
                Booked env x WebhookEvent.payment_refunded (refund_group_of env amount) y t s')
              m (e₃ ∙ e₂ ∙ e₁)
              (write_and_book_ok env moved WebhookEvent.payment_refunded
                (refund_group_of env amount) s₃ r₃);
      }

-- An accepted refund of a well-formed row, and the lines that are booked for it.
module _ {fresh : Transaction} (amount : Amount) (now : Time) (valid : IsValid fresh)
    (accepted : (refund_row amount now fresh).0 ≡ ok tt) where
  pub refund_fits : InRange amount × (pos 1 ≤ℤ amount)
  refund_fits = ground (
    arith,
    (refund_iff valid amount now).0 accepted,
    +ℤ_parts fresh.refunded_amount amount,
    parts_disjoint amount,
  )

  refund-Matches :
      (g : ℕ) (t : Transaction)
      → t.id ≡ fresh.id
      → Matches fresh (refund_row amount now fresh).1 (refund_group g t now amount).entries
  refund-Matches g t same =
      let (status, r, c, a, i, m, k, v, at) = refund-Refunded valid amount now accepted in
      record {
        same_id = i;
        same_version = v;
        same_amount = a;
        valid = refund-IsValid valid amount now accepted;
        captured_by = pos 0;
        refunded_by = amount;
        captures = c ∙ sym (+ℤ-zero fresh.captured_amount);
        refunds = r;
        captured_lines =
            λ id. captured_of-refund g t now amount id ∙ sym (if_same (fresh.id == id) (pos 0));
        refunded_lines = λ id. rw (← same) (refunded_of-refund g t now amount id);
        balance = λ group. balanced-refund g t now amount group;
      }

-- A refund that succeeds keeps the books sound.
pub RefundDone-IsSound :
    {env : Env} {merchant_id tx_id : ℕ} {amount : Amount} {s s' : Store} {t : Transaction}
    → IsSound s
    → RefundDone env merchant_id tx_id amount s t s'
    → IsSound s'
RefundDone-IsSound {env} {tx_id = tx_id} {amount = amount} {s = s} {t = t} sound done =
    let fresh = done.fresh in
    let booked = done.booked in
    let (valid, c, r) : Agrees tx_id (some fresh) s.entries =
      rw done.found at (sound.agrees tx_id) in
    let (fits, positive) = refund_fits amount env.now valid done.accepted in
    let same : t.id ≡ fresh.id =
      ap (λ x. x.id) booked.result ∙ (refund-Refunded valid amount env.now done.accepted).4 in
    let group : booked.group ≡ refund_group env.group_id t env.now amount =
      cc (booked.made, new_refund_group env.group_id t env.now amount fits positive) in
    rw (booked.store, group)
      (posted-IsSound sound (find_id_self tx_id s.transactions done.found)
        (refund-Matches amount env.now valid done.accepted env.group_id t same) env.db_now _)
