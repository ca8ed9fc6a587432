-- ===== src/Acquirer/Breaker/Invariant.antt =====
-- What holds of the breaker between calls, and how its position follows from what was reported.
use mini_payment_gateway.Prelude.{
  ℕ, suc, ◌≡◌, refl, subst₂, sym, ap, ◌∙◌, ◌≤◌, ◌<◌, ◌↔◌, ◌⊎◌, true, List, [], ◌∷◌, arith,
}
use mini_payment_gateway.Prelude.Int.{ℤ}
use mini_payment_gateway.Acquirer.Breaker.Call.{Call}
use mini_payment_gateway.Acquirer.Breaker.{
  State, Breaker, new_breaker, refresh, current, allow, success, failure,
}

-- The threshold is positive, the breaker is closed exactly below it, and only a half-open breaker
-- waits for a probe.
pub record IsConsistent (b : Breaker) : Type 0 where
  pub threshold_positive : 1 ≤ b.threshold
  pub closed_below : b.state ≡ State.state_closed → b.failures < b.threshold
  pub tripped : (b.threshold ≤ b.failures) ⊎ (b.state ≡ State.state_closed)
  pub waits : b.probe_in_flight ≡ true → b.state ≡ State.state_half_open

unfoldable pub step : Call → Breaker → Breaker
step (Call.current now) b = (current now b).1
step (Call.allow now) b = (allow now b).1
step Call.success b = success b
step (Call.failure now) b = failure now b

-- Any interleaving of the calls of all requests.
unfoldable pub run : List Call → Breaker → Breaker
unfolding step
run [] b = b
run (c ∷ cs) b = run cs (step c b)

step-IsConsistent : (c : Call) (b : Breaker) → IsConsistent b → IsConsistent (step c b)
unfolding step current allow success failure refresh
step-IsConsistent (Call.current now) b v = ground arith
step-IsConsistent (Call.allow now) b v = ground arith
step-IsConsistent Call.success b v = ground arith
step-IsConsistent (Call.failure now) b v = ground arith

-- The failures that were reported since the last success, on top of those before.
pub failures_over : List Call → ℕ → ℕ
failures_over [] n = n
failures_over (Call.success ∷ cs) n = failures_over cs 0
failures_over (Call.failure now ∷ cs) n = failures_over cs (suc n)
failures_over (_ ∷ cs) n = failures_over cs n

step_counts :
    (c : Call) (b : Breaker)
    → ((step c b).threshold ≡ b.threshold)
      × ((step c b).failures ≡ failures_over (c ∷ []) b.failures)
unfolding step current allow success failure refresh failures_over
step_counts (Call.current now) b = ground arith
step_counts (Call.allow now) b = ground arith
step_counts Call.success b = (refl, refl)
step_counts (Call.failure now) b = ground arith

failures_over-cons :
    (c : Call) (cs : List Call) (n : ℕ)
    → failures_over (c ∷ cs) n ≡ failures_over cs (failures_over (c ∷ []) n)
unfolding failures_over
failures_over-cons (Call.current now) cs n = refl
failures_over-cons (Call.allow now) cs n = refl
failures_over-cons Call.success cs n = refl
failures_over-cons (Call.failure now) cs n = refl

run_counts :
    (cs : List Call) (b : Breaker)
    → IsConsistent b
    → IsConsistent (run cs b)
      × ((run cs b).threshold ≡ b.threshold)
      × ((run cs b).failures ≡ failures_over cs b.failures)
unfolding run failures_over
run_counts [] b v = (v, refl, refl)
run_counts (c ∷ cs) b v =
    let (t, n) = step_counts c b in
    let (w, ts, ns) = run_counts cs (step c b) (step-IsConsistent c b v) in
    (w, ts ∙ t, ns ∙ ap (failures_over cs) n ∙ sym (failures_over-cons c cs b.failures))

new_breaker-IsConsistent :
    (threshold cooldown : ℤ)
    → IsConsistent (new_breaker threshold cooldown)
      × ((new_breaker threshold cooldown).failures ≡ 0)
unfolding new_breaker
new_breaker-IsConsistent threshold cooldown = ground arith

closed_iff :
    (b : Breaker) → IsConsistent b → (b.state ≡ State.state_closed) ↔ (b.failures < b.threshold)
closed_iff b v = ground arith

-- After any interleaving of calls on a new breaker, it is closed exactly when fewer failures than
-- its threshold were reported since the last success.
pub run_closed_iff :
    (cs : List Call) (threshold cooldown : ℤ)
    → let b = new_breaker threshold cooldown in
      ((run cs b).state ≡ State.state_closed) ↔ (failures_over cs 0 < b.threshold)
run_closed_iff cs threshold cooldown =
    let (v, zero_failures) = new_breaker-IsConsistent threshold cooldown in
    let (w, same, count) = run_counts cs (new_breaker threshold cooldown) v in
    subst₂ (λ n k. ((run cs (new_breaker threshold cooldown)).state ≡ State.state_closed) ↔ (n < k))
      (count ∙ ap (failures_over cs) zero_failures) same
      (closed_iff (run cs (new_breaker threshold cooldown)) w)
