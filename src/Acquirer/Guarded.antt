-- ===== src/Acquirer/Guarded.antt =====
-- internal/acquirer/guarded.go: a call of the processor under the breaker. The timeout is part of the
-- processor's answer, which is a parameter; what other requests do to the breaker during the call is a
-- function on it.
use mini_payment_gateway.Prelude.{
  ◌≡◌, refl, ap₂, Bool, true, false, List, [], ◌∷◌, Result, ok, err, if◌then◌else◌, arith,
}
use mini_payment_gateway.Prelude.Lists.{All}
use mini_payment_gateway.Domain.Errors.{Error}
use mini_payment_gateway.Domain.Transaction.{Time}
use mini_payment_gateway.Acquirer.Breaker.{
  State, Breaker, allow, refresh, success, failure, current,
}

-- The cases of the switch of `do` that report a success: no error, a decline, and an input of our own
-- that the processor did not take. A field's validation error wraps `ErrValidation`.
unfoldable pub is_answered : {A : Type 0} → Result Error A → Bool
is_answered (ok a) = true
is_answered (err (Error.declined code)) = true
is_answered (err (Error.invalid field msg)) = true
is_answered (err Error.validation) = true
is_answered (err Error.invalid_amount) = true
is_answered (err _) = false

-- When the breaker reads the clock: for `Allow`, for `Failure`, and for the `State` of the log line.
pub record Clock : Type 0 where
  pub asked_at : Time
  pub failed_at : Time
  pub logged_at : Time

abbrev report : {A : Type 0} → Clock → Result Error A → Breaker → Breaker
report clock answer b =
    (current clock.logged_at
      (if is_answered answer then success b else failure clock.failed_at b)).1

-- `Guarded.do`.
unfoldable pub do_call :
    {A : Type 0} → Clock → (Breaker → Breaker) → Result Error A → Breaker → Result Error A × Breaker
unfolding allow success failure current is_answered
do_call clock others answer b =
    let (r, b') = allow clock.asked_at b in
    elim r [
      | err refusal ↦ (err Error.acquirer_unavailable, b')
      | ok u ↦ (answer, report clock answer (others b'))
    ]

module _ {A : Type 0} where
  -- Calls that come one after another, each with its clock and the processor's answer to it.
  unfoldable pub serve : List (Clock × Result Error A) → Breaker → List (Result Error A) × Breaker
  serve [] b = ([], b)
  serve ((clock, answer) ∷ calls) b =
      let (r, b') = do_call clock (λ x. x) answer b in
      let (rs, b'') = serve calls b' in (r ∷ rs, b'')

  pub answers : List (Clock × Result Error A) → List (Result Error A)
  answers [] = []
  answers ((clock, answer) ∷ calls) = answer ∷ answers calls

  do_call_closed :
      (clock : Clock) (answer : Result Error A) (b : Breaker)
      → is_answered answer ≡ true
      → b.state ≡ State.state_closed
      → ((do_call clock (λ x. x) answer b).0 ≡ answer)
        × ((do_call clock (λ x. x) answer b).1.state ≡ State.state_closed)
  unfolding do_call allow success current refresh
  do_call_closed clock answer b h closed = ground arith

  -- Calls one after another under a closed breaker that end in a success, a decline or an input
  -- error all return the processor's answer, and the breaker stays closed.
  pub answered_never_trips :
      (calls : List (Clock × Result Error A)) (b : Breaker)
      → All (λ call. is_answered call.1 ≡ true) calls
      → b.state ≡ State.state_closed
      → ((serve calls b).0 ≡ answers calls) × ((serve calls b).1.state ≡ State.state_closed)
  unfolding serve answers
  answered_never_trips [] b h closed = (refl, closed)
  answered_never_trips ((clock, answer) ∷ calls) b (h, hs) closed =
      let (same, closed') = do_call_closed clock answer b h closed in
      let (rest, closed'') =
        answered_never_trips calls (do_call clock (λ x. x) answer b).1 hs closed' in
      (ap₂ (λ x xs. x ∷ xs) same rest, closed'')
