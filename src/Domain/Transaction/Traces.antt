-- ===== src/Domain/Transaction/Traces.antt =====
-- Every method keeps a transaction well-formed, and every sequence of calls accounts for the money.
use mini_payment_gateway.Prelude.{
  List, [], ◌∷◌, ◌≡◌, refl, sym, ap, ◌∙◌, inl, inr, Result, Result-cases, ok, arith,
}
use mini_payment_gateway.Prelude.Int.{pos, ◌≤ℤ◌, ◌+ℤ◌, +ℤ_parts, +ℤ-zero, +ℤ_assoc}
use mini_payment_gateway.Money.{Amount}
use mini_payment_gateway.Domain.Errors.{Error}
use mini_payment_gateway.Domain.Transaction.{
  Status, Transaction, authorize, fail, void, capture, refund, settle,
}
use mini_payment_gateway.Domain.Transaction.Operation.{Operation}
use mini_payment_gateway.Domain.Transaction.Lifecycle.{apply, apply_refused}
use mini_payment_gateway.Domain.Transaction.Validity.{IsValid}
use mini_payment_gateway.Domain.Transaction.Captures.{capture-IsValid, capture-Captured}
use mini_payment_gateway.Domain.Transaction.Refunds.{refund-IsValid, refund-Refunded}

-- What a call that ended with a result added to the captured amount, and to the refunded one.
abbrev pub captured_by : Operation → Result Error (Unit {0}) → Amount
captured_by (Operation.capture a now) (ok u) = a
captured_by _ _ = pos 0

abbrev pub refunded_by : Operation → Result Error (Unit {0}) → Amount
refunded_by (Operation.refund a now) (ok u) = a
refunded_by _ _ = pos 0

-- What one call does to a well-formed transaction.
abbrev Accounts : Operation → Transaction → Type 0
Accounts op t =
    IsValid (apply op t).1
    × ((apply op t).1.captured_amount ≡ t.captured_amount +ℤ captured_by op (apply op t).0)
    × ((apply op t).1.refunded_amount ≡ t.refunded_amount +ℤ refunded_by op (apply op t).0)
    × ((apply op t).1.amount ≡ t.amount)

apply-Accounts : (op : Operation) (t : Transaction) → IsValid t → Accounts op t
unfolding apply authorize fail void settle
apply-Accounts (Operation.authorize ref last4 brand now) t v =
    ground (arith, +ℤ-zero t.captured_amount, +ℤ-zero t.refunded_amount)
apply-Accounts (Operation.fail code now) t v =
    ground (arith, +ℤ-zero t.captured_amount, +ℤ-zero t.refunded_amount)
apply-Accounts (Operation.void now) t v =
    ground (arith, +ℤ-zero t.captured_amount, +ℤ-zero t.refunded_amount)
apply-Accounts (Operation.capture a now) t v = elim (Result-cases (capture a now t).0) [
  | inl (u, e) ↦
      ground (arith, capture-IsValid v a now, capture-Captured v a now, +ℤ-zero t.refunded_amount)
  | inr (x, e) ↦ ground (
    arith,
    apply_refused (Operation.capture a now) t {e = x},
    +ℤ-zero t.captured_amount,
    +ℤ-zero t.refunded_amount,
  )
]
apply-Accounts (Operation.refund a now) t v = elim (Result-cases (refund a now t).0) [
  | inl (u, e) ↦
      ground (arith, refund-IsValid v a now, refund-Refunded v a now, +ℤ-zero t.captured_amount)
  | inr (x, e) ↦ ground (
    arith,
    apply_refused (Operation.refund a now) t {e = x},
    +ℤ-zero t.captured_amount,
    +ℤ-zero t.refunded_amount,
  )
]
apply-Accounts (Operation.settle now) t v =
    ground (arith, +ℤ-zero t.captured_amount, +ℤ-zero t.refunded_amount)

-- Every call, accepted or refused, keeps a transaction well-formed.
pub apply-IsValid : (op : Operation) (t : Transaction) → IsValid t → IsValid (apply op t).1
apply-IsValid op t v = (apply-Accounts op t v).0

-- A sequence of calls; the caller sees each error and goes on.
unfoldable pub run : List Operation → Transaction → Transaction
run [] t = t
run (op ∷ ops) t = run ops (apply op t).1

-- The money that the accepted calls of a sequence captured, and that they refunded.
pub captured_over : List Operation → Transaction → Amount
captured_over [] t = pos 0
captured_over (op ∷ ops) t = captured_by op (apply op t).0 +ℤ captured_over ops (apply op t).1

pub refunded_over : List Operation → Transaction → Amount
refunded_over [] t = pos 0
refunded_over (op ∷ ops) t = refunded_by op (apply op t).0 +ℤ refunded_over ops (apply op t).1

-- Over any sequence of calls on a well-formed transaction, in any order and with any arguments, the
-- transaction stays well-formed, the authorized amount stays, and the captured and the refunded
-- amounts grow by exactly what the accepted captures and the accepted refunds were for.
pub run_accounts :
    (ops : List Operation) (t : Transaction)
    → IsValid t
    → IsValid (run ops t)
      × ((run ops t).captured_amount ≡ t.captured_amount +ℤ captured_over ops t)
      × ((run ops t).refunded_amount ≡ t.refunded_amount +ℤ refunded_over ops t)
      × ((run ops t).amount ≡ t.amount)
unfolding run captured_over refunded_over
run_accounts [] t v = (v, sym (+ℤ-zero _), sym (+ℤ-zero _), refl)
run_accounts (op ∷ ops) t v =
    let (v', c, r, a) = apply-Accounts op t v in
    let (w, cs, rs, as') = run_accounts ops (apply op t).1 v' in
    (
      w,
      cs ∙ ap (λ x. x +ℤ captured_over ops (apply op t).1) c ∙ +ℤ_assoc _ _ _,
      rs ∙ ap (λ x. x +ℤ refunded_over ops (apply op t).1) r ∙ +ℤ_assoc _ _ _,
      as' ∙ a,
    )

-- Over any sequence of calls on a well-formed created transaction, the accepted refunds do not
-- exceed the accepted captures together, and these do not exceed the authorized amount.
pub run_bounds :
    (ops : List Operation) (t : Transaction)
    → IsValid t
    → t.status ≡ Status.created
    → (refunded_over ops t ≤ℤ captured_over ops t) × (captured_over ops t ≤ℤ t.amount)
run_bounds ops t v s = ground (
  arith,
  run_accounts ops t v,
  +ℤ_parts t.captured_amount (captured_over ops t),
  +ℤ_parts t.refunded_amount (refunded_over ops t),
)
