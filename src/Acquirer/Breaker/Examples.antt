-- ===== src/Acquirer/Breaker/Examples.antt =====
-- The theorems on the breaker at concrete calls.
use mini_payment_gateway.Prelude.{◌≡◌, refl, ◌↔◌, ◌<◌, [], ◌∷◌, List, err}
use mini_payment_gateway.Prelude.Int.{pos}
use mini_payment_gateway.Acquirer.Breaker.Call.{Call}
use mini_payment_gateway.Acquirer.Breaker.Invariant.{step, run, failures_over, run_closed_iff}
use mini_payment_gateway.Acquirer.Breaker.Probe.{one_probe}
use mini_payment_gateway.Acquirer.Breaker.{State, Refusal, Breaker, new_breaker, allow, failure}

abbrev breaker : Breaker
breaker = new_breaker (pos 2) (pos 30)

-- Two failures with a call between them, and one that comes late.
abbrev calls : List Call
calls =
    Call.allow (pos 1)
    ∷ Call.failure (pos 2)
    ∷ Call.allow (pos 3)
    ∷ Call.failure (pos 4)
    ∷ Call.failure (pos 5)
    ∷ []

run_closed_iff_example :
    ((run calls breaker).state ≡ State.state_closed) ↔ (failures_over calls 0 < breaker.threshold)
run_closed_iff_example = run_closed_iff calls (pos 2) (pos 30)

run-calls : (run calls breaker).state ≡ State.state_open
unfolding run step failure allow new_breaker
run-calls = refl

abbrev probed : Breaker
probed = (allow (pos 40) (run calls breaker)).1

one_probe_example :
    allow (pos 99) (run (Call.allow (pos 41) ∷ Call.current (pos 42) ∷ []) probed)
    ≡ (err Refusal.circuit_open, probed)
unfolding run step failure allow new_breaker
one_probe_example =
    one_probe (pos 40) (pos 99) (run calls breaker)
      (Call.allow (pos 41) ∷ Call.current (pos 42) ∷ []) refl refl (refl, (refl, tt))
