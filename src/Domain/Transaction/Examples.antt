-- ===== src/Domain/Transaction/Examples.antt =====
-- The theorems on transactions at concrete rows, and runs of the state machine.
use mini_payment_gateway.Prelude.{
  ◌≡◌, refl, ◌↔◌, ◌⊎◌, ◌≢◌, ok, none, some, List, [], ◌∷◌, ◌>>=◌, arith,
}
use mini_payment_gateway.Prelude.Int.{pos, ◌≤ℤ◌, ◌+ℤ◌}
use mini_payment_gateway.Domain.Transaction.Operation.{Operation}
use mini_payment_gateway.Domain.Transaction.Lifecycle.{◌⟶◌, apply, apply-⟶, terminal_absorbs}
use mini_payment_gateway.Domain.Transaction.Validity.{IsValid}
use mini_payment_gateway.Domain.Transaction.Captures.{Capturable, capture_iff}
use mini_payment_gateway.Domain.Transaction.Refunds.{Refundable, refund_iff}
use mini_payment_gateway.Domain.Transaction.Traces.{
  run, captured_over, refunded_over, run_accounts, run_bounds,
}
use mini_payment_gateway.Domain.Transaction.{
  Status, Transaction, is_terminal, authorize, capture, refund,
}

abbrev fresh : Transaction
fresh = record {
  id = 7;
  merchant_id = 1;
  reference = "order-1";
  amount = pos 1000;
  currency = "USD";
  status = Status.created;
  captured_amount = pos 0;
  refunded_amount = pos 0;
  card_last4 = "";
  card_brand = "";
  acquirer_ref = "";
  failure_code = "";
  metadata = [];
  version = 0;
  authorized_at = none;
  captured_at = none;
  settled_at = none;
  created_at = pos 5;
  updated_at = pos 5;
}

abbrev held : Transaction
held = record fresh { status = Status.authorized; authorized_at = some (pos 6) }

abbrev charged : Transaction
charged = record held {
  status = Status.captured;
  captured_amount = pos 600;
  captured_at = some (pos 7);
}

fresh-IsValid : IsValid fresh
fresh-IsValid = ground arith

held-IsValid : IsValid held
held-IsValid = ground arith

charged-IsValid : IsValid charged
charged-IsValid = ground arith

-- An authorization, two captures, one too large, and a refund.
abbrev calls : List Operation
calls =
    Operation.authorize "ref" "4242" "visa" (pos 6)
    ∷ Operation.capture (pos 600) (pos 7)
    ∷ Operation.capture (pos 500) (pos 8)
    ∷ Operation.capture (pos 400) (pos 9)
    ∷ Operation.refund (pos 250) (pos 10)
    ∷ []

run-calls :
    ((run calls fresh).captured_amount ≡ pos 1000) × ((run calls fresh).refunded_amount ≡ pos 250)
unfolding run apply authorize capture refund ◌>>=◌
run-calls = (refl, refl)

run_accounts_example :
    IsValid (run calls fresh)
    × ((run calls fresh).captured_amount ≡ fresh.captured_amount +ℤ captured_over calls fresh)
    × ((run calls fresh).refunded_amount ≡ fresh.refunded_amount +ℤ refunded_over calls fresh)
    × ((run calls fresh).amount ≡ fresh.amount)
run_accounts_example = run_accounts calls fresh fresh-IsValid

run_bounds_example :
    (refunded_over calls fresh ≤ℤ captured_over calls fresh)
    × (captured_over calls fresh ≤ℤ fresh.amount)
run_bounds_example = run_bounds calls fresh fresh-IsValid refl

capture_iff_example :
    ((capture (pos 400) (pos 9) charged).0 ≡ ok tt) ↔ Capturable charged (pos 400) (pos 9)
capture_iff_example = capture_iff charged-IsValid (pos 400) (pos 9)

refund_iff_example : ((refund (pos 600) (pos 9) charged).0 ≡ ok tt) ↔ Refundable charged (pos 600)
refund_iff_example = refund_iff charged-IsValid (pos 600) (pos 9)

apply-⟶_example :
    let after = (apply (Operation.refund (pos 600) (pos 8)) charged).1 in
    (after.status ≡ Status.captured) ⊎ (Status.captured ⟶ after.status)
unfolding apply refund ◌>>=◌
apply-⟶_example = apply-⟶ (Operation.refund (pos 600) (pos 8)) charged refl

abbrev voided : Transaction
voided = record held { status = Status.voided }

terminal_absorbs_example :
    ((apply (Operation.capture (pos 1) (pos 8)) voided).0 ≢ ok tt)
    × ((apply (Operation.capture (pos 1) (pos 8)) voided).1 ≡ voided)
unfolding is_terminal
terminal_absorbs_example = terminal_absorbs (Operation.capture (pos 1) (pos 8)) voided refl
