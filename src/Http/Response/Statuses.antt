-- ===== src/Http/Response/Statuses.antt =====
-- Which errors release an idempotency key.
use mini_payment_gateway.Prelude.{String, ◌≤◌, ◌≡◌, ◌↔◌, ◌⊎◌, arith}
use mini_payment_gateway.Domain.Errors.{Error}
use mini_payment_gateway.Http.Response.{map_error}

-- The errors after which the outcome is not known, or the server is at fault.
abbrev pub IsServerFault : Error → Type 0
IsServerFault e =
    (e ≡ Error.acquirer_unavailable)
    ⊎ (e ≡ Error.cancelled)
    ⊎ (e ≡ Error.deadline_exceeded)
    ⊎ (e ≡ Error.unbalanced_entry_group)
    ⊎ (e ≡ Error.internal)

-- An error has a status of 500 or more exactly when the processor is unavailable, the request was
-- cancelled or timed out, an entry group is unbalanced, or the error is unknown.
pub status_iff :
    (text : Error → String) (e : Error) → (500 ≤ (map_error text e).0) ↔ IsServerFault e
unfolding map_error
status_iff text e = ground arith
