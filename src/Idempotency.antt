-- ===== src/Idempotency.antt =====
-- internal/idempotency/store.go and the part of internal/transport/http/middleware_idem.go that follows
-- the claim. Redis and the JSON encoder are parameters: the operations are those that the code calls.
pub mod Redis
pub mod Claims
pub mod Replays
mod Examples
use mini_payment_gateway.Prelude.{
  ℕ, String, Bool, true, false, not, Option, none, some, Result, ok, err, leb, str_eq,
  if◌then◌else◌,
}
use mini_payment_gateway.Domain.Errors.{Error}
use mini_payment_gateway.Domain.Transaction.{Time}

pub data State : Type 0 where
  in_progress completed : State

abbrev pub is_in_progress : State → Bool
is_in_progress State.in_progress = true
is_in_progress State.completed = false

-- `Record`.
pub record Claim : Type 0 where
  pub state : State
  pub fingerprint : String
  pub status_code : ℕ
  pub body : String
  pub content_type : String
  pub created_at : Time

-- The client of Redis on a server's state `R`, and the encoder of a record as a payload `P`.
pub record Client (R P : Type 0) : Type 0 where
  pub set_nx : String → P → R → Result Error Bool × R
  pub get : String → R → Result Error (Option P)
  pub set : String → P → R → Result Error (Unit {0}) × R
  pub del : String → R → Result Error (Unit {0}) × R
  pub marshal : Claim → Result Error P
  pub unmarshal : P → Result Error Claim

-- What the handler of a request came to: a response, or a panic.
pub data Outcome : Type 0 where
  response : (status_code : ℕ) (content_type body : String) → Outcome
  panicked : Outcome

-- The record of a claim, and that of an answer.
abbrev pub claim_of : String → Time → Claim
claim_of fingerprint now = record {
  state = State.in_progress;
  fingerprint = fingerprint;
  status_code = 0;
  body = "";
  content_type = "";
  created_at = now;
}

abbrev pub completed_claim : String → ℕ → String → String → Time → Claim
completed_claim fingerprint status_code content_type body now = record {
  state = State.completed;
  fingerprint = fingerprint;
  status_code = status_code;
  body = body;
  content_type = content_type;
  created_at = now;
}

module _ {R P : Type 0} (client : Client R P) where
  -- `Get`; `redis.Nil` is an absent key.
  pub get_claim : String → R → Result Error (Option Claim)
  get_claim key r = elim (client.get key r) [
    | err e ↦ err e
    | ok raw ↦ elim raw [
      | none ↦ ok none
      | some p ↦ elim (client.unmarshal p) [ err e ↦ err e | ok rec ↦ ok (some rec) ]
    ]
  ]

  -- The tests of `Begin` on the record of a key that another request holds.
  abbrev examine : String → Result Error (Option Claim) → Result Error (Option Claim)
  examine fingerprint (err e) = err e
  examine fingerprint (ok none) = err Error.in_flight
  examine fingerprint (ok (some existing)) =
      if not (str_eq existing.fingerprint fingerprint)
      then err Error.key_reuse
      else if is_in_progress existing.state
      then err Error.in_flight
      else ok (some existing)

  -- The answer of SET NX.
  abbrev answered : String → String → Result Error Bool × R → Result Error (Option Claim) × R
  answered key fingerprint (err e, r) = (err e, r)
  answered key fingerprint (ok true, r) = (ok none, r)
  answered key fingerprint (ok false, r) = (examine fingerprint (get_claim key r), r)

  -- `Begin`; `none` tells the caller to run the handler.
  unfoldable pub begin : String → String → Time → R → Result Error (Option Claim) × R
  unfolding get_claim
  begin key fingerprint now r = elim (client.marshal (claim_of fingerprint now)) [
    | err e ↦ (err e, r)
    | ok payload ↦ answered key fingerprint (client.set_nx key payload r)
  ]

  -- `Complete`.
  unfoldable pub complete :
      String → String → ℕ → String → String → Time → R → Result Error (Unit {0}) × R
  complete key fingerprint status_code content_type body now r =
      elim (client.marshal (completed_claim fingerprint status_code content_type body now)) [
        | err e ↦ (err e, r)
        | ok payload ↦ client.set key payload r
      ]

  -- `Release`.
  unfoldable pub release : String → R → Result Error (Unit {0}) × R
  release key r = client.del key r

  -- The end of the middleware: an answer below 500 is stored, and after any other end the key is
  -- released. An error of either is only logged.
  unfoldable pub conclude : String → String → Time → Outcome → R → R
  unfolding complete release
  conclude key fingerprint now (response status_code content_type body) r =
      if leb 500 status_code
      then (release key r).1
      else (complete key fingerprint status_code content_type body now r).1
  conclude key fingerprint now panicked r = (release key r).1
