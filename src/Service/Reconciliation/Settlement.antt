-- ===== src/Service/Reconciliation/Settlement.antt =====
-- Settlement keeps the books sound.
use mini_payment_gateway.Prelude.{
  ℕ, ◌≡◌, sym, ap, ap₂, ◌∙◌, subst, some, List, [], ◌∷◌, inl, inr, ok, not, if◌then◌else◌, >>=_elim,
  ◌==◌, Bool-cases, if_same, arith,
}
use mini_payment_gateway.Prelude.Lists.{All}
use mini_payment_gateway.Prelude.Int.{pos, ltb_ℤ, +ℤ-zero}
use mini_payment_gateway.Prelude.Int64.{InRange, sub64, wrap-InRange}
use mini_payment_gateway.Domain.Transaction.{
  Status, Transaction, status_eq, settle as settle_row, net_payable,
}
use mini_payment_gateway.Domain.Transaction.Validity.{IsValid}
use mini_payment_gateway.Domain.Transaction.Holds.{Unmoved, settle_ok}
use mini_payment_gateway.Domain.Ledger.{LedgerEntry}
use mini_payment_gateway.Domain.Ledger.Legs.{settlement_group, new_settlement_group}
use mini_payment_gateway.Domain.Webhook.{WebhookEvent}
use mini_payment_gateway.Repository.{Store}
use mini_payment_gateway.Repository.Keeps.{Keeps-seq, Keeps-if, Keeps-with_tx}
use mini_payment_gateway.Repository.Entries.Appends.{with_entries, insert_group_ok}
use mini_payment_gateway.Repository.Transactions.{find_id}
use mini_payment_gateway.Repository.Transactions.Rows.{get_for_update_ok, find_id_self, update_ok}
use mini_payment_gateway.Repository.Books.{IsSound, captured_of, refunded_of, debits_of, credits_of}
use mini_payment_gateway.Repository.Books.Groups.{
  captured_of-settlement, refunded_of-settlement, balanced-settlement, captured_of_nil,
  refunded_of_nil, balanced_nil,
}
use mini_payment_gateway.Repository.Books.Postings.{Matches, posted-IsSound}
use mini_payment_gateway.Service.Payment.{Env}
use mini_payment_gateway.Service.Payment.Writes.{
  on_row_ok, from_result_ok, queue_webhook_ok, with_no_lines,
}
use mini_payment_gateway.Service.Payment.Holds.{row-IsValid}
use mini_payment_gateway.Service.Reconciliation.{
  Round, book_payout, settle_captured, settle_body, settle,
}

-- The lines of a payout.
abbrev pub payout_lines : Env → Transaction → List LedgerEntry
payout_lines env t =
    if ltb_ℤ (pos 0) (net_payable env.fee_bps t)
    then (settlement_group env.group_id t env.now (net_payable env.fee_bps t)).entries
    else []

net_payable-InRange : (env : Env) (t : Transaction) → InRange (net_payable env.fee_bps t)
unfolding net_payable sub64
net_payable-InRange env t = wrap-InRange _

book_payout_ok :
    (env : Env) (t : Transaction) (s : Store) {s' : Store}
    → book_payout env t s ≡ (ok tt, s')
    → s' ≡ with_entries s (payout_lines env t)
unfolding book_payout
book_payout_ok env t s {s'} h = elim (Bool-cases (ltb_ℤ (pos 0) (net_payable env.fee_bps t))) [
  | inl e ↦ rw e (
      >>=_elim _ _ s (rw e at h) λ group s₁ h₁ r₁.
        let (made, e₁) = from_result_ok _ s h₁ in
        let (checked, e₂) = insert_group_ok env.faults group s₁ r₁ in
        let legs =
          new_settlement_group env.group_id t env.now (net_payable env.fee_bps t)
            (net_payable-InRange env t) (ground arith) in
        let same : group ≡ settlement_group env.group_id t env.now (net_payable env.fee_bps t) =
          cc in
        e₂ ∙ ap₂ (λ x g. with_entries x g.entries) e₁ same)
  | inr e ↦ rw e (ap (λ x. x.1) (sym (rw e at h)) ∙ with_no_lines s)
]

-- What holds of the lines of a settlement and of no lines holds of the lines of a payout.
either_lines :
    (Q : List LedgerEntry → Type 0) (env : Env) (t : Transaction)
    → Q (settlement_group env.group_id t env.now (net_payable env.fee_bps t)).entries
    → Q []
    → Q (payout_lines env t)
either_lines Q env t some_lines no_lines =
    elim (Bool-cases (ltb_ℤ (pos 0) (net_payable env.fee_bps t))) [
      | inl e ↦ rw e some_lines
      | inr e ↦ rw e no_lines
    ]

module _ {fresh moved : Transaction} (u : Unmoved fresh moved) (v : IsValid moved) where
  -- The lines of a payout capture and refund nothing.
  payout-Matches : (env : Env) (t : Transaction) → Matches fresh moved (payout_lines env t)
  payout-Matches env t = record {
    same_id = u.same_id;
    same_version = u.same_version;
    same_amount = u.same_amount;
    valid = v;
    captured_by = pos 0;
    refunded_by = pos 0;
    captures = u.same_captured ∙ sym (+ℤ-zero _);
    refunds = u.same_refunded ∙ sym (+ℤ-zero _);
    captured_lines = λ id.
        either_lines (λ es. captured_of id es ≡ pos 0) env t (captured_of-settlement _ t _ _ id)
          (captured_of_nil id)
        ∙ sym (if_same (fresh.id == id) (pos 0));
    refunded_lines = λ id.
        either_lines (λ es. refunded_of id es ≡ pos 0) env t (refunded_of-settlement _ t _ _ id)
          (refunded_of_nil id)
        ∙ sym (if_same (fresh.id == id) (pos 0));
    balance = λ group.
        either_lines (λ es. debits_of group es ≡ credits_of group es) env t
          (balanced-settlement _ t _ _ group) (balanced_nil group);
  }

-- A settlement of a captured row keeps the books sound.
settle_captured-IsSound :
    (env : Env) (tx_id : ℕ) (fresh : Transaction) (s : Store) {s' : Store}
    → IsSound s
    → find_id tx_id s.transactions ≡ some fresh
    → settle_captured env fresh s ≡ (ok tt, s')
    → IsSound s'
unfolding settle_captured
settle_captured-IsSound env tx_id fresh s sound found h = >>=_elim _ _ s h λ moved s₁ h₁ r₁.
    >>=_elim _ _ s₁ r₁ λ t s₂ h₂ r₂. >>=_elim _ _ s₂ r₂ λ u s₃ h₃ r₃.
      let (accepted, m, e₁) = on_row_ok (settle_row env.now) fresh s h₁ in
      let (row, q, result, e₂) = update_ok env.faults moved env.db_now s₁ h₂ in
      let e₃ = book_payout_ok env t s₂ h₃ in
      let e₄ = queue_webhook_ok _ t WebhookEvent.payment_settled s₃ r₃ in
      let (same, v) = settle_ok (row-IsValid tx_id s sound found) env.now accepted in
      rw (e₄, e₃, e₂, m, e₁)
        (posted-IsSound sound (find_id_self tx_id s.transactions found)
          (payout-Matches same v env t) env.db_now _)

settle_body-IsSound :
    (env : Env) (tx_id : ℕ) (s : Store) {s' : Store}
    → IsSound s
    → settle_body env tx_id s ≡ (ok tt, s')
    → IsSound s'
unfolding settle_body
settle_body-IsSound env tx_id s {s'} sound h = >>=_elim _ _ s h λ fresh s₁ h₁ r₁.
    let (found, e₁) = get_for_update_ok env.faults tx_id s h₁ in
    elim (Bool-cases (not (status_eq fresh.status Status.captured))) [
      | inl e ↦
          let left : s' ≡ s₁ = sym (ap (λ x. x.1) (rw e at r₁)) in
          subst IsSound (sym (left ∙ e₁)) sound
      | inr e ↦
          settle_captured-IsSound env tx_id fresh s sound found
            (subst (λ x. settle_captured env fresh x ≡ (ok tt, s')) e₁ (rw e at r₁))
    ]

-- The loop over the scanned transactions keeps the books sound.
pub settle-IsSound :
    (rounds : List Round)
    → All (λ r. (t : Store) → IsSound t → IsSound (r.others t)) rounds
    → (s : Store) → IsSound s
    → IsSound (settle rounds s).1
unfolding settle
settle-IsSound [] keep s sound = sound
settle-IsSound (r ∷ rs) (keep, keeps) s sound =
    Keeps-if IsSound (not (status_eq r.txn.status Status.captured)) _ _ (settle-IsSound rs keeps)
      (Keeps-seq IsSound _ _ keep λ u.
        Keeps-seq IsSound _ _
          (Keeps-with_tx IsSound r.env.faults _
            λ t t' x h e. settle_body-IsSound r.env r.txn.id t h e)
          λ v. Keeps-seq IsSound _ _ (settle-IsSound rs keeps) λ n t h. h)
      s sound
