-- ===== src/Http/Response.antt =====
-- internal/transport/http/response.go: the one place where an error becomes a status code.
pub mod Statuses
mod Examples
use mini_payment_gateway.Prelude.{ℕ, String}
use mini_payment_gateway.Domain.Errors.{Error, decline_code, decline_message}

pub data ErrorType : Type 0 where
  validation authentication card idempotency rate_limit api : ErrorType

-- `ErrorBody`, without the id of the request.
pub record ErrorBody : Type 0 where
  pub code : String
  pub message : String
  pub error_type : ErrorType
  pub field : String

abbrev body : String → String → ErrorType → ErrorBody
body code message error_type = record {
  code = code;
  message = message;
  error_type = error_type;
  field = "";
}

-- `mapError`; `text` is `err.Error()`.
unfoldable pub map_error : (Error → String) → Error → ℕ × ErrorBody
unfolding decline_code
map_error text (Error.declined code) =
    (402, body (decline_code code) (decline_message code) ErrorType.card)
map_error text (Error.invalid field msg) = (
  400,
  record {
    code = "invalid_request";
    message = msg;
    error_type = ErrorType.validation;
    field = field;
  },
)
map_error text Error.not_found =
    (404, body "resource_not_found" "The requested resource does not exist." ErrorType.validation)
map_error text Error.unauthenticated = (
  401,
  body "authentication_failed" "The request signature could not be verified."
      ErrorType.authentication,
)
map_error text Error.decrypt = (
  401,
  body "authentication_failed" "The request signature could not be verified."
      ErrorType.authentication,
)
map_error text Error.merchant_suspended =
    (403, body "merchant_suspended" "This merchant account is suspended." ErrorType.authentication)
map_error text Error.duplicate_reference = (
  409,
  body "duplicate_reference" "A transaction with this reference already exists."
      ErrorType.validation,
)
map_error text Error.invalid_state_transition = (
  409,
  body "invalid_state" "The transaction is not in a state that allows this operation."
      ErrorType.validation,
)
map_error text Error.authorization_expired = (
  409,
  body "authorization_expired"
      "The authorization is older than 7 days and can no longer be captured." ErrorType.validation,
)
map_error text Error.capture_exceeds_authorized = (
  422,
  body "capture_exceeds_authorized" "The capture amount exceeds the authorized amount."
      ErrorType.validation,
)
map_error text Error.refund_exceeds_captured = (
  422,
  body "refund_exceeds_captured" "The refund amount exceeds the captured amount."
      ErrorType.validation,
)
map_error text Error.concurrent_modification = (
  409,
  body "concurrent_modification" "The transaction was modified by another request. Retry."
      ErrorType.api,
)
map_error text Error.in_flight = (
  409,
  body "request_in_progress"
      "A request with this Idempotency-Key is still in progress. Retry shortly."
      ErrorType.idempotency,
)
map_error text Error.key_reuse = (
  422,
  body "idempotency_key_reuse"
      "This Idempotency-Key was already used with a different request body." ErrorType.idempotency,
)
map_error text Error.rate_limited =
    (429, body "rate_limit_exceeded" "Too many requests. Slow down." ErrorType.rate_limit)
map_error text Error.acquirer_unavailable = (
  503,
  body "acquirer_unavailable"
      "The card processor did not respond. The outcome is unknown; retry with the same Idempotency-Key."
      ErrorType.api,
)
map_error text Error.invalid_amount =
    (400, body "invalid_request" (text Error.invalid_amount) ErrorType.validation)
map_error text Error.currency_mismatch =
    (400, body "invalid_request" (text Error.currency_mismatch) ErrorType.validation)
map_error text Error.unsupported_currency =
    (400, body "invalid_request" (text Error.unsupported_currency) ErrorType.validation)
map_error text Error.validation =
    (400, body "invalid_request" (text Error.validation) ErrorType.validation)
map_error text Error.cancelled =
    (503, body "request_cancelled" "The request was cancelled or timed out." ErrorType.api)
map_error text Error.deadline_exceeded =
    (503, body "request_cancelled" "The request was cancelled or timed out." ErrorType.api)
map_error text Error.unbalanced_entry_group =
    (500, body "internal_error" "An unexpected error occurred." ErrorType.api)
map_error text Error.internal =
    (500, body "internal_error" "An unexpected error occurred." ErrorType.api)
