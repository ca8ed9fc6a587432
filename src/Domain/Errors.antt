-- ===== src/Domain/Errors.antt =====
-- internal/domain/errors.go, and the sentinel errors that the other packages add
-- (internal/idempotency/store.go, internal/secrets/cipher.go, the context package). An error is known
-- by what `errors.Is` and `errors.As` find in it; text that `fmt.Errorf` adds round a sentinel is left
-- out.
use mini_payment_gateway.Prelude.{String}

pub data DeclineCode : Type 0 where
  insufficient_funds card_expired do_not_honor fraud_suspected : DeclineCode

pub data Error : Type 0 where
  not_found validation invalid_amount currency_mismatch unsupported_currency : Error
  invalid_state_transition capture_exceeds_authorized refund_exceeds_captured : Error
  authorization_expired concurrent_modification duplicate_reference merchant_suspended : Error
  unauthenticated unbalanced_entry_group acquirer_unavailable rate_limited : Error
  -- `*DeclinedError`, its message left to `decline_message`.
  declined : DeclineCode → Error
  -- `*ValidationError`: the field and the message.
  invalid : String → String → Error
  -- idempotency.ErrInFlight and ErrKeyReuse, secrets.ErrDecrypt.
  in_flight key_reuse decrypt : Error
  -- context.Canceled and context.DeadlineExceeded.
  cancelled deadline_exceeded : Error
  -- An error that no test of the code recognises, such as one of the database driver.
  internal : Error

-- The map of messages that belong to the decline codes.
pub decline_message : DeclineCode → String
decline_message DeclineCode.insufficient_funds = "The card has insufficient funds."
decline_message DeclineCode.card_expired = "The card has expired."
decline_message DeclineCode.do_not_honor = "The issuer declined the transaction (do not honor)."
decline_message DeclineCode.fraud_suspected = "The transaction was declined as suspected fraud."

-- `string(code)`.
unfoldable pub decline_code : DeclineCode → String
decline_code DeclineCode.insufficient_funds = "insufficient_funds"
decline_code DeclineCode.card_expired = "card_expired"
decline_code DeclineCode.do_not_honor = "do_not_honor"
decline_code DeclineCode.fraud_suspected = "fraud_suspected"
