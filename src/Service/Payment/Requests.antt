-- ===== src/Service/Payment/Requests.antt =====
-- Whole requests: whichever way a request ends, and whatever else is committed while it waits for the
-- acquirer, the books stay sound.
use mini_payment_gateway.Prelude.{
  ℕ, String, ◌≡◌, sym, ◌∙◌, subst, none, inl, inr, ok, err, Result, Result-cases, ◌==◌, ==_iff,
  Bool-cases, arith, modify, ◌<◌, [], ◌∷◌, ◌++◌,
}
use mini_payment_gateway.Prelude.Int.{pos, pos_part}
use mini_payment_gateway.Prelude.Int64.{half_range}
use mini_payment_gateway.Domain.Errors.{Error}
use mini_payment_gateway.Domain.Transaction.{Status, Transaction, void as void_row}
use mini_payment_gateway.Domain.Transaction.Validity.{
  IsValid, new_transaction-IsValid, new_transaction_unfunded,
}
use mini_payment_gateway.Money.{Amount}
use mini_payment_gateway.Repository.{Store, Faults, Query}
use mini_payment_gateway.Repository.Keeps.{
  Keeps, Keeps-seq, Keeps-from_result, Keeps-if, Keeps-with_tx, Keeps-get_by_merchant_and_id,
  Keeps-get_by_reference,
}
use mini_payment_gateway.Repository.Transactions.{create, find_id, inserted}
use mini_payment_gateway.Repository.Transactions.Rows.{
  create_ok, create_refused, find_id-insert, with_rows,
}
use mini_payment_gateway.Repository.Books.{IsSound, Agrees}
use mini_payment_gateway.Service.Payment.{
  Env, Answer, Others, AuthorizeInput, AuthorizeResponse, capture, refund, void, authorize,
  authorize_row_for, insert_or_resume, resume, conclude, after_hold, failure_body,
}
use mini_payment_gateway.Service.Payment.Checks.{
  Keeps-on_row, Keeps-capture_check, Keeps-refund_check,
}
use mini_payment_gateway.Service.Payment.Captures.{capture_body_ok, CaptureDone-IsSound}
use mini_payment_gateway.Service.Payment.Refunds.{refund_body_ok, RefundDone-IsSound}
use mini_payment_gateway.Service.Payment.Holds.{
  void_body-IsSound, authorize_body-IsSound, failure_body-IsSound,
}

-- Whichever statements fail and whatever the acquirer answers, a call of Capture leaves sound books
-- if it started from them and what others commit meanwhile keeps them sound: every row is
-- well-formed, its captured and refunded amounts are the sums of its journal lines, and every entry
-- group balances.
pub capture-IsSound :
    (env : Env) (answer : Answer) (others : Others) (merchant_id tx_id : ℕ) (amount : Amount)
    (s : Store)
    → ((t : Store) → IsSound t → IsSound (others t))
    → IsSound s
    → IsSound (capture env answer others merchant_id tx_id amount s).1
unfolding capture
capture-IsSound env answer others merchant_id tx_id amount s keep sound =
    Keeps-seq IsSound _ _ (Keeps-capture_check IsSound env merchant_id tx_id amount)
      (λ asked.
        Keeps-seq IsSound _ _ (λ t h. h)
          λ ref. Keeps-seq IsSound _ _ keep λ u.
            Keeps-with_tx IsSound env.faults _ λ t t' x h e.
              CaptureDone-IsSound h (capture_body_ok env merchant_id tx_id asked.0 t e))
      s sound

-- Whichever statements fail and whatever the acquirer answers, a call of Refund leaves sound books
-- if it started from them and what others commit meanwhile keeps them sound.
pub refund-IsSound :
    (env : Env) (answer : Answer) (others : Others) (merchant_id tx_id : ℕ) (amount : Amount)
    (s : Store)
    → ((t : Store) → IsSound t → IsSound (others t))
    → IsSound s
    → IsSound (refund env answer others merchant_id tx_id amount s).1
unfolding refund
refund-IsSound env answer others merchant_id tx_id amount s keep sound =
    Keeps-seq IsSound _ _ (Keeps-refund_check IsSound env merchant_id tx_id amount)
      (λ asked.
        Keeps-seq IsSound _ _ (λ t h. h)
          λ ref. Keeps-seq IsSound _ _ keep λ u.
            Keeps-with_tx IsSound env.faults _
              λ t t' x h e. RefundDone-IsSound h (refund_body_ok env merchant_id tx_id asked.0 t e))
      s sound

-- Whichever statements fail and whatever the acquirer answers, a call of Void leaves sound books if
-- it started from them and what others commit meanwhile keeps them sound.
pub void-IsSound :
    (env : Env) (answer : String → Result Error String) (others : Others) (merchant_id tx_id : ℕ)
    (s : Store)
    → ((t : Store) → IsSound t → IsSound (others t))
    → IsSound s
    → IsSound (void env answer others merchant_id tx_id s).1
unfolding void
void-IsSound env answer others merchant_id tx_id s keep sound =
    Keeps-seq IsSound _ _ (Keeps-get_by_merchant_and_id IsSound env.faults merchant_id tx_id)
      (λ txn. Keeps-seq IsSound _ _ (Keeps-on_row IsSound (void_row env.checked_at) txn) λ t.
        Keeps-seq IsSound _ _ (λ t h. h)
          λ ref. Keeps-seq IsSound _ _ keep λ u.
            Keeps-with_tx IsSound env.faults _
              λ t t' x h e. void_body-IsSound env merchant_id tx_id t h e)
      s sound

-- A row that has moved no money may be inserted: the journal has no lines of its id.
inserted-IsSound :
    (t : Transaction) (s : Store)
    → IsValid t
    → (t.status ≡ Status.created) × (t.captured_amount ≡ pos 0) × (t.refunded_amount ≡ pos 0)
    → find_id t.id s.transactions ≡ none
    → IsSound s
    → IsSound (with_rows s (s.transactions ++ inserted t ∷ []))
inserted-IsSound t s valid (created, c, r) free sound = record {
  agrees = λ id.
      rw (find_id-insert id s.transactions (inserted t) free) (elim (Bool-cases (t.id == id)) [
        | inl e ↦
            let (c', r') : Agrees t.id none s.entries = rw free at (sound.agrees t.id) in
            rw e (rw (← (==_iff t.id id).0 e) (ground arith, c' ∙ sym c, r' ∙ sym r))
        | inr e ↦ rw e (sound.agrees id)
      ]);
  balanced = sound.balanced;
}

Keeps-create :
    (faults : Faults) (t : Transaction)
    → IsValid t
    → (t.status ≡ Status.created) × (t.captured_amount ≡ pos 0) × (t.refunded_amount ≡ pos 0)
    → Keeps IsSound (create faults t)
Keeps-create faults t valid fresh s sound = elim (Result-cases (create faults t s).0) [
  | inl (u, e) ↦
      let (free, stored) = create_ok faults t s (λ i. (e i, (create faults t s).1)) in
      subst IsSound (sym stored) (inserted-IsSound t s valid fresh free sound)
  | inr (x, e) ↦ subst IsSound (sym (create_refused faults t s e)) sound
]

Keeps-insert_or_resume :
    (env : Env) (input : AuthorizeInput) (txn : Transaction)
    → IsValid txn
    → (txn.status ≡ Status.created) × (txn.captured_amount ≡ pos 0) × (txn.refunded_amount ≡ pos 0)
    → Keeps IsSound (insert_or_resume env input txn)
unfolding insert_or_resume resume
Keeps-insert_or_resume env input txn valid fresh s sound =
    let kept = Keeps-create env.faults txn valid fresh s sound in
    let read =
      Keeps-get_by_reference IsSound env.faults input.merchant_id input.reference
        (create env.faults txn s).1 kept in
    ground arith

-- The row that an authorization goes on with is inserted into sound books.
Keeps-authorize_row_for :
    (env : Env) (input : AuthorizeInput)
    → pos_part input.amount < half_range
    → Keeps IsSound (authorize_row_for env input)
unfolding authorize_row_for
Keeps-authorize_row_for env input fits = Keeps-from_result IsSound _ _ λ t e.
    Keeps-insert_or_resume env input t
      (new_transaction-IsValid env.txn_id input.merchant_id input.reference input.amount
        input.currency input.metadata env.checked_at fits e)
      (new_transaction_unfunded env.txn_id input.merchant_id input.reference input.amount
        input.currency input.metadata env.checked_at e)

Keeps-after_hold :
    (env : Env) (input : AuthorizeInput) (tx_id : ℕ) (res : AuthorizeResponse)
    (capture_all : Transaction → Query Transaction)
    → ((t : Transaction) → Keeps IsSound (capture_all t))
    → Keeps IsSound (after_hold env input tx_id res capture_all)
unfolding after_hold
Keeps-after_hold env input tx_id res capture_all keep =
    Keeps-seq IsSound _ _
      (Keeps-with_tx IsSound env.faults _ λ t t' x h e. authorize_body-IsSound env tx_id res t h e)
      λ saved. Keeps-if IsSound input.capture _ _ (keep saved) λ s h. h

Keeps-conclude :
    (env : Env) (input : AuthorizeInput) (others : Others)
    (capture_all : Transaction → Query Transaction) (txn : Transaction)
    (answer : Result Error AuthorizeResponse)
    → Keeps IsSound (modify others)
    → ((t : Transaction) → Keeps IsSound (capture_all t))
    → Keeps IsSound (conclude env input others capture_all txn answer)
unfolding conclude
Keeps-conclude env input others capture_all txn (ok res) keep keep' s h =
    Keeps-seq IsSound _ _ keep (λ u. Keeps-after_hold env input txn.id res capture_all keep') s h
Keeps-conclude env input others capture_all txn (err (Error.declined code)) keep keep' s h =
    Keeps-seq IsSound _ _
      (Keeps-seq IsSound _ _ keep λ u.
        Keeps-with_tx IsSound env.faults (failure_body env txn.id code)
          λ t t' v h e. failure_body-IsSound env txn.id code t h e)
      (λ v s h. h) s h
Keeps-conclude env input others capture_all txn (err e) keep keep' s h = h

-- Whichever statements fail and whatever the acquirer answers, a call of Authorize, with the
-- capture that it goes on with where the request asks for one, leaves sound books if the amount of
-- the request fits an int64, it started from sound books, and what others commit meanwhile keeps
-- them sound.
pub authorize-IsSound :
    (env env' : Env) (hold : Transaction → Result Error AuthorizeResponse) (answer : Answer)
    (others others' : Others) (input : AuthorizeInput) (s : Store)
    → pos_part input.amount < half_range
    → ((t : Store) → IsSound t → IsSound (others t))
    → ((t : Store) → IsSound t → IsSound (others' t))
    → IsSound s
    → IsSound (authorize env hold others env' answer others' input s).1
unfolding authorize
authorize-IsSound env env' hold answer others others' input s fits keep keep' sound =
    Keeps-seq IsSound _ _ (Keeps-authorize_row_for env input fits)
      (λ txn.
        Keeps-conclude env input others _ txn (hold txn) keep
          λ t s h. capture-IsSound env' answer others' t.merchant_id t.id t.amount s keep' h)
      s sound
