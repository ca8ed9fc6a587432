-- ===== src/Acquirer/Breaker/Probe.antt =====
-- A half-open breaker lets one call through.
use mini_payment_gateway.Prelude.{◌≡◌, refl, Bool, true, false, List, [], ◌∷◌, ok, err, arith}
use mini_payment_gateway.Prelude.Lists.{All}
use mini_payment_gateway.Domain.Transaction.{Time}
use mini_payment_gateway.Acquirer.Breaker.Call.{Call}
use mini_payment_gateway.Acquirer.Breaker.Invariant.{step, run}
use mini_payment_gateway.Acquirer.Breaker.{State, Refusal, Breaker, refresh, current, allow}

-- Whether a call reports how a call of the processor ended.
abbrev pub reports : Call → Bool
reports (Call.current now) = false
reports (Call.allow now) = false
reports Call.success = true
reports (Call.failure now) = true

-- The probe is under way.
abbrev Probing : Breaker → Type 0
Probing b = (b.state ≡ State.state_half_open) × (b.probe_in_flight ≡ true)

step_quiet : (c : Call) (b : Breaker) → reports c ≡ false → Probing b → step c b ≡ b
unfolding step current allow refresh
step_quiet (Call.current now) b quiet h = ground arith
step_quiet (Call.allow now) b quiet h = ground arith
step_quiet Call.success b quiet h = cc
step_quiet (Call.failure now) b quiet h = cc

run_quiet :
    (cs : List Call) (b : Breaker) → All (λ c. reports c ≡ false) cs → Probing b → run cs b ≡ b
unfolding run
run_quiet [] b quiet h = refl
run_quiet (c ∷ cs) b (quiet, rest) h =
    let same = step_quiet c b quiet h in rw same (run_quiet cs b rest h)

allow_admitted :
    (now : Time) (b : Breaker) {b' : Breaker}
    → allow now b ≡ (ok tt, b')
    → b'.state ≡ State.state_half_open
    → Probing b'
unfolding allow refresh
allow_admitted now b h half = ground arith

allow_refused : (now : Time) (b : Breaker) → Probing b → allow now b ≡ (err Refusal.circuit_open, b)
unfolding allow refresh
allow_refused now b h = ground arith

-- After Allow has admitted a call of a half-open breaker, Allow refuses every call, with nothing
-- changed, until a success or a failure is reported.
pub one_probe :
    (now later : Time) (b : Breaker) (cs : List Call) {b' : Breaker}
    → allow now b ≡ (ok tt, b')
    → b'.state ≡ State.state_half_open
    → All (λ c. reports c ≡ false) cs
    → allow later (run cs b') ≡ (err Refusal.circuit_open, b')
one_probe now later b cs {b'} h half quiet =
    let probing = allow_admitted now b h half in
    rw (run_quiet cs b' quiet probing) (allow_refused later b' probing)
