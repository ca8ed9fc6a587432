-- ===== src/Domain/Transaction/Lifecycle.antt =====
-- The state machine of `transaction.go` against the diagram that its comment draws.
use mini_payment_gateway.Prelude.{◌≡◌, refl, ◌↔◌, ◌⊎◌, ◌≢◌, true, ok, err, arith}
use mini_payment_gateway.Domain.Errors.{Error}
use mini_payment_gateway.Domain.Transaction.Operation.{Operation}
use mini_payment_gateway.Domain.Transaction.{
  Status, Transaction, Method, allowed_transitions, is_among, is_terminal, transition_to, authorize,
  fail, void, capture, refund, settle,
}

-- The arrows of the comment over `allowedTransitions`.
infix 40 ◌⟶◌
pub data ◌⟶◌ : Status → Status → Type 0 where
  created_authorized : Status.created ⟶ Status.authorized
  created_failed : Status.created ⟶ Status.failed
  authorized_captured : Status.authorized ⟶ Status.captured
  authorized_voided : Status.authorized ⟶ Status.voided
  authorized_failed : Status.authorized ⟶ Status.failed
  captured_settled : Status.captured ⟶ Status.settled
  captured_refunded : Status.captured ⟶ Status.refunded
  settled_refunded : Status.settled ⟶ Status.refunded

ruleset edges = (
  created_authorized, created_failed, authorized_captured, authorized_voided, authorized_failed,
  captured_settled, captured_refunded, settled_refunded,
)

edge_of_among : (s next : Status) → is_among next (allowed_transitions s) ≡ true → s ⟶ next
edge_of_among s next h = grind (arith, edges)

among_of_edge : {s next : Status} → s ⟶ next → is_among next (allowed_transitions s) ≡ true
among_of_edge created_authorized = refl
among_of_edge created_failed = refl
among_of_edge authorized_captured = refl
among_of_edge authorized_voided = refl
among_of_edge authorized_failed = refl
among_of_edge captured_settled = refl
among_of_edge captured_refunded = refl
among_of_edge settled_refunded = refl

transition_ok :
    (next : Status) (t : Transaction)
    → (transition_to next t).0 ≡ ok tt
    → is_among next (allowed_transitions t.status) ≡ true
unfolding transition_to
transition_ok next t h = ground arith

transition_of_among :
    (next : Status) (t : Transaction)
    → is_among next (allowed_transitions t.status) ≡ true
    → (transition_to next t).0 ≡ ok tt
unfolding transition_to
transition_of_among next t h = ground arith

-- TransitionTo accepts a status exactly when the diagram over allowedTransitions has the arrow.
pub transition_to_iff :
    (next : Status) (t : Transaction) → ((transition_to next t).0 ≡ ok tt) ↔ (t.status ⟶ next)
transition_to_iff next t = (
  λ h. edge_of_among t.status next (transition_ok next t h),
  λ e. transition_of_among next t (among_of_edge e),
)

-- A call of one of the mutating methods.
unfoldable pub apply : Operation → Method
apply (Operation.authorize ref last4 brand now) = authorize ref last4 brand now
apply (Operation.fail code now) = fail code now
apply (Operation.void now) = void now
apply (Operation.capture amount now) = capture amount now
apply (Operation.refund amount now) = refund amount now
apply (Operation.settle now) = settle now

-- A mutating method that is refused leaves the transaction as it was.
pub apply_refused :
    (op : Operation) (t : Transaction) {e : Error} → (apply op t).0 ≡ err e → (apply op t).1 ≡ t
unfolding apply authorize fail void capture refund settle
apply_refused (Operation.authorize ref last4 brand now) t h = ground arith
apply_refused (Operation.fail code now) t h = ground arith
apply_refused (Operation.void now) t h = ground arith
apply_refused (Operation.capture amount now) t h = ground arith
apply_refused (Operation.refund amount now) t h = ground arith
apply_refused (Operation.settle now) t h = ground arith

-- A mutating method that is accepted keeps the status or follows one arrow of the diagram.
pub apply-⟶ :
    (op : Operation) (t : Transaction)
    → (apply op t).0 ≡ ok tt
    → ((apply op t).1.status ≡ t.status) ⊎ (t.status ⟶ (apply op t).1.status)
unfolding apply authorize fail void capture refund settle
apply-⟶ (Operation.authorize ref last4 brand now) t h = grind (arith, edges)
apply-⟶ (Operation.fail code now) t h = grind (arith, edges)
apply-⟶ (Operation.void now) t h = grind (arith, edges)
apply-⟶ (Operation.capture amount now) t h = grind (arith, edges)
apply-⟶ (Operation.refund amount now) t h = grind (arith, edges)
apply-⟶ (Operation.settle now) t h = grind (arith, edges)

-- In a terminal state every mutating method reports an error and leaves the transaction as it was.
pub terminal_absorbs :
    (op : Operation) (t : Transaction)
    → is_terminal t.status ≡ true
    → ((apply op t).0 ≢ ok tt) × ((apply op t).1 ≡ t)
unfolding apply is_terminal authorize fail void capture refund settle
terminal_absorbs (Operation.authorize ref last4 brand now) t h = ground arith
terminal_absorbs (Operation.fail code now) t h = ground arith
terminal_absorbs (Operation.void now) t h = ground arith
terminal_absorbs (Operation.capture amount now) t h = ground arith
terminal_absorbs (Operation.refund amount now) t h = ground arith
terminal_absorbs (Operation.settle now) t h = ground arith
