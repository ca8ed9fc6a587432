-- ===== src/Acquirer/Breaker.antt =====
-- internal/acquirer/breaker.go: the circuit breaker. Each method holds the mutex throughout, so that
-- it is one step; the clock that it reads is an argument.
pub mod Call
pub mod Invariant
pub mod Probe
mod Examples
use mini_payment_gateway.Prelude.{
  ℕ, suc, Bool, true, false, not, ◌&&◌, ◌||◌, Result, ok, err, leb, if◌then◌else◌,
}
use mini_payment_gateway.Prelude.Int.{ℤ, pos, ◌-ℤ◌, ltb_ℤ, leb_ℤ, pos_part}
use mini_payment_gateway.Prelude.Int64.{saturate}
use mini_payment_gateway.Domain.Transaction.{Time}

pub data State : Type 0 where
  state_closed state_open state_half_open : State

abbrev pub is_open : State → Bool
is_open State.state_open = true
is_open _ = false

abbrev pub is_half_open : State → Bool
is_half_open State.state_half_open = true
is_half_open _ = false

-- `ErrCircuitOpen`.
pub data Refusal : Type 0 where
  circuit_open : Refusal

pub record Breaker : Type 0 where
  pub threshold : ℕ
  pub cooldown : ℤ
  pub state : State
  pub failures : ℕ
  pub opened_at : Time
  pub probe_in_flight : Bool

-- `NewBreaker`; `openedAt` is the zero time, which nothing reads before it is set.
unfoldable pub new_breaker : ℤ → ℤ → Breaker
new_breaker threshold cooldown = record {
  threshold = if ltb_ℤ threshold (pos 1) then 1 else pos_part threshold;
  cooldown = cooldown;
  state = State.state_closed;
  failures = 0;
  opened_at = pos 0;
  probe_in_flight = false;
}

-- `refreshLocked`.
unfoldable pub refresh : Time → Breaker → Breaker
unfolding saturate ◌-ℤ◌
refresh now b =
    if is_open b.state && leb_ℤ b.cooldown (saturate (now -ℤ b.opened_at))
    then record b { state = State.state_half_open; probe_in_flight = false }
    else b

-- `State`.
unfoldable pub current : Time → Breaker → State × Breaker
unfolding refresh
current now b = let r = refresh now b in (r.state, r)

-- The switch of `Allow`, after the refresh.
abbrev admit : Breaker → Result Refusal (Unit {0}) × Breaker
admit b = elim b.state [
  | State.state_open ↦ (err Refusal.circuit_open, b)
  | State.state_half_open ↦
      if b.probe_in_flight
      then (err Refusal.circuit_open, b)
      else (ok tt, record b { probe_in_flight = true })
  | State.state_closed ↦ (ok tt, b)
]

-- `Allow`.
unfoldable pub allow : Time → Breaker → Result Refusal (Unit {0}) × Breaker
unfolding refresh
allow now b = admit (refresh now b)

-- `Success`.
unfoldable pub success : Breaker → Breaker
success b = record b { failures = 0; probe_in_flight = false; state = State.state_closed }

-- `Failure`.
unfoldable pub failure : Time → Breaker → Breaker
failure now b =
    let f = record b { probe_in_flight = false; failures = suc b.failures } in
    if is_half_open f.state || leb f.threshold f.failures
    then record f { state = State.state_open; opened_at = now }
    else f
