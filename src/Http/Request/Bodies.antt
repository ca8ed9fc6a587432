-- ===== src/Http/Request/Bodies.antt =====
-- internal/transport/http/request.go: the bodies of requests. What encoding/json makes of a body is an
-- argument, and so are the functions of the package strings.
use mini_payment_gateway.Prelude.{
  ℕ, String, Bool, false, not, ◌||◌, List, [], ◌∷◌, Result, ok, err, ltb, str_eq, if◌then◌else◌,
}
use mini_payment_gateway.Prelude.Int.{ℤ, pos, leb_ℤ, eqb_ℤ}
use mini_payment_gateway.Money.{currency_valid}
use mini_payment_gateway.Domain.Errors.{Error}
use mini_payment_gateway.Service.Payment.{AuthorizeInput}

-- How `Decode` can fail: the body is over the limit, malformed at a byte, of the wrong type in a field,
-- empty, or wrong in another way, with the text that is left of the error.
pub data DecodeError : Type 0 where
  too_large empty_body : DecodeError
  malformed : ℕ → DecodeError
  wrong_type other : String → DecodeError

abbrev pub decode_error : (ℕ → String) → DecodeError → Error
decode_error syntax_text DecodeError.too_large = Error.invalid "body" "request body is too large"
decode_error syntax_text (DecodeError.malformed offset) = Error.invalid "body" (syntax_text offset)
decode_error syntax_text (DecodeError.wrong_type field) = Error.invalid field "has the wrong type"
decode_error syntax_text DecodeError.empty_body = Error.invalid "body" "request body is empty"
decode_error syntax_text (DecodeError.other text) = Error.invalid "body" text

-- A body: its length, and what `Decode` gives, with whether more follows.
pub record Body (A : Type 0) : Type 0 where
  pub content_length : ℤ
  pub decoded : Result DecodeError (A × Bool)
  pub syntax_text : ℕ → String

-- `decodeJSON`, on what `Decode` gives.
abbrev pub single : {A : Type 0} → (ℕ → String) → Result DecodeError (A × Bool) → Result Error A
single syntax_text (err e) = err (decode_error syntax_text e)
single syntax_text (ok (a, more)) =
    if more
    then err (Error.invalid "body" "request body must contain a single JSON object")
    else ok a

unfoldable pub decode_json : {A : Type 0} → Body A → Result Error A
decode_json body = single body.syntax_text body.decoded

-- A missing body stands for a zero value; so does one whose error says that it is empty.
abbrev or_zero : {A : Type 0} → A → Result Error A → Result Error A
or_zero zero_value (err (Error.invalid field message)) =
    if str_eq message "request body is empty"
    then ok zero_value
    else err (Error.invalid field message)
or_zero zero_value r = r

-- `decodeOptionalJSON`.
unfoldable pub decode_optional_json : {A : Type 0} → A → Body A → Result Error A
unfolding decode_json
decode_optional_json zero_value body =
    if eqb_ℤ body.content_length (pos 0)
    then ok zero_value
    else or_zero zero_value (decode_json body)

pub record CardRequest : Type 0 where
  pub number : String
  pub exp_month : ℤ
  pub exp_year : ℤ
  pub cvv : String

pub record CreatePaymentRequest : Type 0 where
  pub reference : String
  pub amount : ℤ
  pub currency : String
  pub card : CardRequest
  pub capture : Bool
  pub metadata : List (String × String)

-- strings.ToUpper and strings.TrimSpace, and the length of a string in bytes.
pub record Strings : Type 0 where
  pub to_upper : String → String
  pub trim_space : String → String
  pub byte_length : String → ℕ

-- The loop over the metadata: whether some key or value is too long.
pub oversized : Strings → List (String × String) → Bool
oversized strings [] = false
oversized strings ((k, v) ∷ metadata) =
    ltb 40 (strings.byte_length k) || ltb 500 (strings.byte_length v) || oversized strings metadata

abbrev pub input_of : Strings → ℕ → CreatePaymentRequest → AuthorizeInput × CardRequest
input_of strings merchant_id r = (
  record {
    merchant_id = merchant_id;
    reference = strings.trim_space r.reference;
    amount = r.amount;
    currency = strings.to_upper r.currency;
    capture = r.capture;
    metadata = r.metadata;
  },
  record (r.card) { number = strings.trim_space r.card.number },
)

-- `ToInput`: what the service is called with, the card beside the rest.
unfoldable pub to_input :
    Strings → ℕ → CreatePaymentRequest → Result Error (AuthorizeInput × CardRequest)
unfolding currency_valid oversized
to_input strings merchant_id r =
    if leb_ℤ r.amount (pos 0)
    then err (Error.invalid "amount" "must be greater than zero")
    else if not (currency_valid (strings.to_upper r.currency))
    then err (Error.invalid "currency" "must be one of VND, USD")
    else if str_eq r.card.number ""
    then err (Error.invalid "card.number" "must not be empty")
    else if oversized strings r.metadata
    then err (Error.invalid "metadata" "keys are limited to 40 and values to 500 characters")
    else ok (input_of strings merchant_id r)
