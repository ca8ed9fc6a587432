-- ===== src/Http/Payments.antt =====
-- internal/transport/http/handler_payment.go: the payment endpoints, from a parsed request of an
-- authenticated merchant to the response, before it is written as JSON.
pub mod Isolation
pub mod Walk
mod Examples
use mini_payment_gateway.Prelude.{
  ℕ, ◌+◌, String, Bool, true, false, not, ◌&&◌, Option, none, some, List, [], ◌∷◌, Result, ok, err,
  ltb, map, ◌>>=◌, if◌then◌else◌, is_some,
}
use mini_payment_gateway.Prelude.Int.{ℤ, pos}
use mini_payment_gateway.Prelude.Lists.{length, take, last}
use mini_payment_gateway.Money.{Amount, Currency}
use mini_payment_gateway.Domain.Errors.{Error}
use mini_payment_gateway.Domain.Transaction.{
  Time, Status, Transaction, allowed_transitions, authorization_expires_at,
}
use mini_payment_gateway.Repository.{Store, Faults, Query}
use mini_payment_gateway.Repository.Transactions.{get_by_merchant_and_id}
use mini_payment_gateway.Repository.Transactions.Listing.{ListFilter, list_transactions}
use mini_payment_gateway.Service.Payment.{
  Env, Answer, Others, AuthorizeInput, AuthorizeResponse, capture, refund, void, authorize,
}
use mini_payment_gateway.Text.{Bytes, is_empty}
use mini_payment_gateway.Http.Response.{ErrorBody, map_error}
use mini_payment_gateway.Http.Request.{query_limit, query_time, path_uuid, validate_amount}
use mini_payment_gateway.Http.Request.Pages.{Texts, encode_cursor, decode_cursor}
use mini_payment_gateway.Http.Request.Bodies.{
  Body, CardRequest, CreatePaymentRequest, Strings, decode_json, decode_optional_json, to_input,
}

-- `writeJSON` of a value, or `writeError`.
pub data Reply (A : Type 0) : Type 0 where
  replied : ℕ → A → Reply A
  refused : ℕ → ErrorBody → Reply A

abbrev pub Handler : Type 0 → Type 0
Handler A = Store → Reply A × Store

-- What the handlers use of the standard library and of package uuid.
pub record Server : Type 0 where
  pub texts : Texts
  pub strings : Strings
  pub read_time : Bytes → Option Time
  pub read_status : Bytes → Status
  pub error_text : Error → String

pub record CardResponse : Type 0 where
  pub last4 : String
  pub brand : String

pub record PaymentResponse : Type 0 where
  pub id : ℕ
  pub reference : String
  pub amount : Amount
  pub currency : Currency
  pub status : Status
  pub captured_amount : Amount
  pub refunded_amount : Amount
  pub card : CardResponse
  pub failure_code : String
  pub metadata : List (String × String)
  pub authorized_at : Option Time
  pub captured_at : Option Time
  pub settled_at : Option Time
  pub expires_at : Option Time
  pub created_at : Time

pub record PaymentListResponse : Type 0 where
  pub payments : List PaymentResponse
  pub has_more : Bool
  pub next_cursor : Bytes

-- `toPaymentResponse`.
unfoldable pub to_payment_response : Transaction → PaymentResponse
to_payment_response t = record {
  id = t.id;
  reference = t.reference;
  amount = t.amount;
  currency = t.currency;
  status = t.status;
  captured_amount = t.captured_amount;
  refunded_amount = t.refunded_amount;
  card = record { last4 = t.card_last4; brand = t.card_brand };
  failure_code = t.failure_code;
  metadata = t.metadata;
  authorized_at = t.authorized_at;
  captured_at = t.captured_at;
  settled_at = t.settled_at;
  expires_at = authorization_expires_at t;
  created_at = t.created_at;
}

module _ (server : Server) where
  -- `writeError`, without the id of the request.
  abbrev pub write_error : {A : Type 0} → Error → Reply A
  write_error e = let (status, body) = map_error server.error_text e in refused status body

  -- A part of a handler that may end the request with an error.
  abbrev pub or_refuse : {A B : Type 0} → Result Error A → (A → Handler B) → Handler B
  or_refuse (ok a) f s = f a s
  or_refuse (err e) f s = (write_error e, s)

  -- How a handler ends that has called the service.
  abbrev pub respond : ℕ → Result Error Transaction × Store → Reply PaymentResponse × Store
  respond status (ok t, s) = (replied status (to_payment_response t), s)
  respond status (err e, s) = (write_error e, s)

  -- `Create`; what the acquirer answers may depend on the card.
  unfoldable pub create_handler :
      Env
      → (CardRequest → Transaction → Result Error AuthorizeResponse)
      → Others
      → Env
      → Answer
      → Others
      → ℕ
      → Body CreatePaymentRequest
      → Handler PaymentResponse
  create_handler env hold others env' answer others' merchant_id body =
      or_refuse (decode_json body) λ req.
        or_refuse (to_input server.strings merchant_id req) λ (input, card) s.
          respond 201 (authorize env (hold card) others env' answer others' input s)

  -- `Get`.
  unfoldable pub get_handler : Faults → ℕ → Bytes → Handler PaymentResponse
  get_handler faults merchant_id raw =
      or_refuse (path_uuid server.texts.parse_uuid raw "id")
        λ id s. respond 200 (get_by_merchant_and_id faults merchant_id id s)

  -- `Capture`; the body is an `AmountRequest`, which is its amount.
  unfoldable pub capture_handler :
      Env → Answer → Others → ℕ → Bytes → Body ℤ → Handler PaymentResponse
  capture_handler env answer others merchant_id raw body =
      or_refuse (path_uuid server.texts.parse_uuid raw "id") λ id.
        or_refuse (decode_optional_json (pos 0) body) λ asked.
          or_refuse (validate_amount asked)
            λ amount s. respond 200 (capture env answer others merchant_id id amount s)

  -- `Refund`.
  unfoldable pub refund_handler :
      Env → Answer → Others → ℕ → Bytes → Body ℤ → Handler PaymentResponse
  refund_handler env answer others merchant_id raw body =
      or_refuse (path_uuid server.texts.parse_uuid raw "id") λ id.
        or_refuse (decode_optional_json (pos 0) body) λ asked.
          or_refuse (validate_amount asked)
            λ amount s. respond 200 (refund env answer others merchant_id id amount s)

  -- `Void`.
  unfoldable pub void_handler :
      Env → (String → Result Error String) → Others → ℕ → Bytes → Handler PaymentResponse
  void_handler env answer others merchant_id raw =
      or_refuse (path_uuid server.texts.parse_uuid raw "id")
        λ id s. respond 200 (void env answer others merchant_id id s)

-- The routes that change a payment that is there: the id as it stands in the path, and the body.
pub data Change : Type 0 where
  capture_route refund_route : Bytes → Body ℤ → Change
  void_route : Bytes → Change

unfoldable pub serve :
    Server
    → Env
    → Answer
    → (String → Result Error String)
    → Others
    → ℕ
    → Change
    → Handler PaymentResponse
serve server env answer void_answer others merchant_id (Change.capture_route raw body) =
    capture_handler server env answer others merchant_id raw body
serve server env answer void_answer others merchant_id (Change.refund_route raw body) =
    refund_handler server env answer others merchant_id raw body
serve server env answer void_answer others merchant_id (Change.void_route raw) =
    void_handler server env void_answer others merchant_id raw

-- The parameters of a listing.
pub record PaymentsQuery : Type 0 where
  pub status : Bytes
  pub from : Bytes
  pub to : Bytes
  pub cursor : Bytes
  pub limit : Bytes

-- `Status.Valid`.
abbrev pub status_valid : Status → Bool
status_valid Status.other = false
status_valid _ = true

-- The filter on the status, if there is one.
abbrev pub query_status : (Bytes → Status) → Bytes → Result Error (Option Status)
query_status read_status raw =
    if is_empty raw
    then ok none
    else if not (status_valid (read_status raw))
    then err (Error.invalid "status" "is not a known transaction status")
    else ok (some (read_status raw))

-- The cursor that the last row of a page gives.
abbrev pub cursor_after : Texts → Option Transaction → Bytes
unfolding encode_cursor
cursor_after texts none = []
cursor_after texts (some t) = encode_cursor texts t.created_at t.id

-- The response for the rows that were found, one more than the page at most.
unfoldable pub payments_page : Texts → ℕ → List Transaction → PaymentListResponse
unfolding to_payment_response cursor_after
payments_page texts limit txns =
    if ltb limit (length txns)
    then record {
      payments = map to_payment_response (take limit txns);
      has_more = true;
      next_cursor = cursor_after texts (last (take limit txns));
    }
    else record { payments = map to_payment_response txns; has_more = false; next_cursor = [] }

abbrev pub list_filter :
    ℕ → Option Status → Option Time → Option Time → Option (Time × ℕ) → ℕ → ListFilter
list_filter merchant_id status from to cursor limit = record {
  merchant_id = merchant_id;
  status = status;
  from = from;
  to = to;
  cursor = cursor;
  limit = limit + 1;
}

-- `List`.
unfoldable pub list_handler : Server → Faults → ℕ → PaymentsQuery → Handler PaymentListResponse
unfolding query_time decode_cursor query_limit list_transactions payments_page
list_handler server faults merchant_id q =
    or_refuse server (query_status server.read_status q.status) λ status.
      or_refuse server (query_time server.read_time q.from "from") λ from.
        or_refuse server (query_time server.read_time q.to "to") λ to.
          or_refuse server (decode_cursor server.texts q.cursor) λ cursor.
            or_refuse server (query_limit q.limit 25 100) λ limit s.
              let (r, s') =
                list_transactions faults (list_filter merchant_id status from to cursor limit) s in
              or_refuse server r
                (λ txns t. (replied 200 (payments_page server.texts limit txns), t)) s'
