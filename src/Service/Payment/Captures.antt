-- ===== src/Service/Payment/Captures.antt =====
-- The database transaction of `Capture`: what it has done when it succeeds, and that it keeps the
-- books sound.
pub mod Effects
use mini_payment_gateway.Prelude.{
  ℕ, ◌≡◌, sym, ap, ◌∙◌, subst₂, some, Result, ok, >>=_elim, ◌==◌, if_same, arith, if_same,
}
use mini_payment_gateway.Domain.Errors.{Error}
use mini_payment_gateway.Domain.Transaction.{Time, Transaction, capture as capture_row}
use mini_payment_gateway.Domain.Ledger.{EntryGroup, new_capture_entry_group}
use mini_payment_gateway.Domain.Webhook.{WebhookEvent}
use mini_payment_gateway.Domain.Transaction.Validity.{IsValid}
use mini_payment_gateway.Domain.Transaction.Captures.{
  capture-Captured, capture-IsValid, capture_iff,
}
use mini_payment_gateway.Domain.Ledger.Legs.{
  capture_group, new_capture_group, new_capture_group_needs,
}
use mini_payment_gateway.Prelude.Int.{pos, ◌≤ℤ◌, +ℤ-zero, +ℤ_parts, parts_disjoint}
use mini_payment_gateway.Prelude.Int64.{InRange}
use mini_payment_gateway.Repository.Books.{IsSound, Agrees}
use mini_payment_gateway.Repository.Books.Groups.{
  captured_of-capture, refunded_of-capture, balanced-capture,
}
use mini_payment_gateway.Repository.Books.Postings.{Matches, posted-IsSound}
use mini_payment_gateway.Money.{Amount, fee}
use mini_payment_gateway.Repository.{Store}
use mini_payment_gateway.Repository.Transactions.{find_id}
use mini_payment_gateway.Repository.Transactions.Rows.{get_for_update_ok, find_id_self}
use mini_payment_gateway.Service.Payment.{Env, capture_body}
use mini_payment_gateway.Service.Payment.Writes.{Booked, write_and_book_ok, on_row_ok, owned_by_ok}

-- The group that a capture books for a row as it was saved.
abbrev pub capture_group_of : Env → Amount → Transaction → Result Error EntryGroup
capture_group_of env amount t =
    new_capture_entry_group env.group_id t amount (fee amount env.fee_bps) env.now

-- What a capture that succeeded has done: the row is the merchant's, the domain's rules accepted the
-- capture of the row as it was inside the transaction, and the row, the lines and the webhook are
-- written together.
pub record CaptureDone (env : Env) (merchant_id tx_id : ℕ) (amount : Amount) (s : Store)
    (t : Transaction) (s' : Store) : Type 0 where
  pub fresh : Transaction
  pub found : find_id tx_id s.transactions ≡ some fresh
  pub owned : fresh.merchant_id ≡ merchant_id
  pub accepted : (capture_row amount env.now fresh).0 ≡ ok tt
  pub booked :
      Booked env
        (capture_row amount env.now fresh).1
        WebhookEvent.payment_captured
        (capture_group_of env amount)
        s
        t
        s'

-- A capture transaction that succeeds has found the row, which is the merchant's; the domain's
-- rules accepted the capture of the row as it was inside the transaction; and it has written the
-- row, the lines of its entry group and one webhook, and nothing else.
pub capture_body_ok :
    (env : Env) (merchant_id tx_id : ℕ) (amount : Amount) (s : Store) {t : Transaction} {s' : Store}
    → capture_body env merchant_id tx_id amount s ≡ (ok t, s')
    → CaptureDone env merchant_id tx_id amount s t s'
unfolding capture_body
capture_body_ok env merchant_id tx_id amount s {t} {s'} h = >>=_elim _ _ s h λ fresh s₁ h₁ r₁.
    >>=_elim _ _ s₁ r₁ λ u s₂ h₂ r₂. >>=_elim _ _ s₂ r₂ λ moved s₃ h₃ r₃.
      let (found, e₁) = get_for_update_ok env.faults tx_id s h₁ in
      let (owned, e₂) = owned_by_ok merchant_id fresh s₁ h₂ in
      let (accepted, m, e₃) = on_row_ok (capture_row amount env.now) fresh s₂ h₃ in
      record {
        fresh = fresh;
        found = found;
        owned = owned;
        accepted = accepted;
        booked =
            subst₂
              (λ x y.
                Booked env x WebhookEvent.payment_captured (capture_group_of env amount) y t s')
              m (e₃ ∙ e₂ ∙ e₁)
              (write_and_book_ok env moved WebhookEvent.payment_captured
                (capture_group_of env amount) s₃ r₃);
      }

-- An accepted capture of a well-formed row, and the lines that are booked for it.
module _ {fresh : Transaction} (amount : Amount) (now : Time) (valid : IsValid fresh)
    (accepted : (capture_row amount now fresh).0 ≡ ok tt) where
  pub capture_fits : InRange amount
  capture_fits = ground (
    arith,
    (capture_iff valid amount now).0 accepted,
    +ℤ_parts fresh.captured_amount amount,
    parts_disjoint amount,
  )

  capture-Matches :
      (g : ℕ) (t : Transaction) (charge : Amount)
      → t.id ≡ fresh.id
      → pos 0 ≤ℤ charge
      → Matches fresh (capture_row amount now fresh).1 (capture_group g t now amount charge).entries
  capture-Matches g t charge same low =
      let (status, c, r, a, i, m, k, v, at) = capture-Captured valid amount now accepted in
      record {
        same_id = i;
        same_version = v;
        same_amount = a;
        valid = capture-IsValid valid amount now accepted;
        captured_by = amount;
        refunded_by = pos 0;
        captures = c;
        refunds = r ∙ sym (+ℤ-zero fresh.refunded_amount);
        captured_lines = λ id. rw (← same) (captured_of-capture g t now amount id charge);
        refunded_lines = λ id.
            refunded_of-capture g t now amount id charge ∙ sym (if_same (fresh.id == id) (pos 0));
        balance = λ group. balanced-capture g t now amount group charge low;
      }

-- A capture that succeeds keeps the books sound, whatever rate the fee is taken at.
pub CaptureDone-IsSound :
    {env : Env} {merchant_id tx_id : ℕ} {amount : Amount} {s s' : Store} {t : Transaction}
    → IsSound s
    → CaptureDone env merchant_id tx_id amount s t s'
    → IsSound s'
CaptureDone-IsSound {env} {tx_id = tx_id} {amount = amount} {s = s} {t = t} sound done =
    let fresh = done.fresh in
    let booked = done.booked in
    let charge = fee amount env.fee_bps in
    let (valid, c, r) : Agrees tx_id (some fresh) s.entries =
      rw done.found at (sound.agrees tx_id) in
    let fits = capture_fits amount env.now valid done.accepted in
    let (p, low, high) =
      new_capture_group_needs env.group_id t env.now amount fits charge booked.made in
    let same : t.id ≡ fresh.id =
      ap (λ x. x.id) booked.result ∙ (capture-Captured valid amount env.now done.accepted).4 in
    let group : booked.group ≡ capture_group env.group_id t env.now amount charge =
      cc (booked.made, new_capture_group env.group_id t env.now amount fits charge low high) in
    rw (booked.store, group)
      (posted-IsSound sound (find_id_self tx_id s.transactions done.found)
        (capture-Matches amount env.now valid done.accepted env.group_id t charge same low)
        env.db_now _)
