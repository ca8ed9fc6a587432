-- ===== src/RateLimit.antt =====
-- internal/ratelimit/limiter.go, a fixed-window counter in Redis, and
-- internal/transport/http/middleware_ratelimit.go. A window is known by its number.
mod Windows
mod Examples
use mini_payment_gateway.Prelude.{
  ℕ, suc, ◌+◌, ◌-◌, ◌*◌, ◌/◌, ◌≤◌, ◌≡◌, Bool, true, false, Result, ok, err, ltb, leb, if◌then◌else◌,
}
use mini_payment_gateway.Prelude.Int.{ℤ, pos, pos_part, ◌-ℤ◌, ltb_ℤ, leb_ℤ}
use mini_payment_gateway.Domain.Errors.{Error}

-- The limit and the window in nanoseconds.
pub record Limiter : Type 0 where
  pub limit : ℕ
  pub window : ℕ

-- `New`, from the configured limit and window.
unfoldable pub new_limiter : ℤ → ℤ → Limiter
new_limiter limit window = record {
  limit = if ltb_ℤ limit (pos 1) then 1 else pos_part limit;
  window = if leb_ℤ window (pos 0) then 60000000000 else pos_part window;
}

-- The pipeline of INCR and EXPIRE on one subject's counter of a window, on a server's state `R`.
abbrev pub Pipeline : Type 0 → Type 0
Pipeline R = ℕ → R → Result Error ℕ × R

-- What is documented of the two commands: an answer is the counter after it has grown by one, a
-- counter that is missing starting at zero; and no counter shrinks while its window lasts, which is
-- what EXPIRE with the length of the window keeps.
pub record IsCounter {R : Type 0} (count : ℕ → R → ℕ) (pipeline : Pipeline R) : Type 0 where
  pub answer :
      {k : ℕ} {r r' : R} {n : ℕ}
      → pipeline k r ≡ (ok n, r')
      → (n ≡ suc (count k r)) × (count k r' ≡ n)
  pub keeps : (k b : ℕ) (r : R) → count b r ≤ count b (pipeline k r).1

-- `Result`; the time to wait is to the end of the window.
pub record Outcome : Type 0 where
  pub allowed : Bool
  pub limit : ℕ
  pub remaining : ℕ
  pub retry_after : ℤ

-- The end of `Allow`, with the counter of the window.
abbrev pub outcome_of : Limiter → ℕ → ℕ → Result Error ℕ → Result Error Outcome
outcome_of l bucket later (err e) = err e
outcome_of l bucket later (ok count) = ok (record {
  allowed = leb count l.limit;
  limit = l.limit;
  remaining = l.limit - count;
  retry_after = pos (suc bucket * l.window) -ℤ pos later;
})

-- `Allow`, on the clock, read once more for the time to wait.
unfoldable pub allow : {R : Type 0} → Pipeline R → Limiter → ℕ → ℕ → R → Result Error Outcome × R
unfolding ◌-ℤ◌
allow pipeline l now later r =
    let (count, r') = pipeline (now / l.window) r in (outcome_of l (now / l.window) later count, r')

-- What the middleware does with a request: it goes on, or is refused with seconds to wait.
pub data Verdict : Type 0 where
  served : Verdict
  refused : ℕ → Verdict

-- `RateLimit`, behind the authentication: a limiter that fails lets the request through.
unfoldable pub rate_limit : Result Error Outcome → Verdict
rate_limit (err e) = Verdict.served
rate_limit (ok r) =
    if r.allowed
    then Verdict.served
    else Verdict.refused
        (if ltb_ℤ r.retry_after (pos 1000000000) then 1 else pos_part r.retry_after / 1000000000)
