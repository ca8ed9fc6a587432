-- ===== src/Http/Payments/Examples.antt =====
-- The payment endpoints on a store with a payment of each of two merchants.
use mini_payment_gateway.Prelude.{
  true, ℕ, suc, map, ◌<◌, ◌≡◌, ◌⊎◌, refl, false, Option, none, some, [], ◌∷◌, ok, ◌>>=◌, arith,
}
use mini_payment_gateway.Prelude.Int.{pos_part, ℤ, pos}
use mathlib.Core.Option
use mini_payment_gateway.Prelude.Lists.{length}
use mini_payment_gateway.Money.{fee}
use mini_payment_gateway.Domain.Transaction.{
  Status, Transaction, remaining_capturable, capture as capture_row,
}
use mini_payment_gateway.Domain.Ledger.{new_capture_entry_group}
use mini_payment_gateway.Repository.{Store, with_tx}
use mini_payment_gateway.Repository.Entries.{insert_group}
use mini_payment_gateway.Repository.Transactions.{get_by_merchant_and_id, get_for_update, update}
use mini_payment_gateway.Service.Payment.{capture, capture_check, capture_body, queue_webhook}
use mini_payment_gateway.Service.Payment.Examples.{
  env, held, store, captured_row, nothing_else, approves,
}
use mini_payment_gateway.Service.Payment.Isolation.{HasRow}
use mini_payment_gateway.Text.{Bytes, codes}
use mini_payment_gateway.Http.Request.{path_uuid, validate_amount, query_time, query_limit}
use mini_payment_gateway.Http.Request.Pages.{IsReadable, encode_cursor, decode_cursor}
use mini_payment_gateway.Repository.Transactions.Listing.{list_transactions}
use mini_payment_gateway.Http.Request.Bodies.{Body, decode_optional_json}
use mini_payment_gateway.Http.Response.{ErrorBody, ErrorType, map_error}
use mini_payment_gateway.Http.Payments.{
  Reply, Server, Change, PaymentsQuery, to_payment_response, capture_handler, list_handler, serve,
  payments_page,
}
use mini_payment_gateway.Http.Payments.Isolation.{serve_isolates, serve-refused}
use mini_payment_gateway.Http.Payments.Walk.{walk, asked_for, payments_walk}

abbrev first_digit : Bytes → Option ℕ
first_digit [] = none
first_digit (c ∷ cs) = some c

-- Ids and times of one byte.
abbrev server : Server
server = record {
  texts = record {
    time_text = λ ts. pos_part ts ∷ [];
    parse_time = λ raw. Option.map pos (first_digit raw);
    uuid_text = λ id. id ∷ [];
    parse_uuid = first_digit;
  };
  strings = record { to_upper = λ s. s; trim_space = λ s. s; byte_length = λ s. 0 };
  read_time = λ raw. none;
  read_status = λ raw. Status.captured;
  error_text = λ e. "";
}

abbrev theirs : Transaction
theirs = record held { id = 8; merchant_id = 2; created_at = pos 41 }

abbrev both : Store
both = record store { transactions = held ∷ theirs ∷ [] }

abbrev body_of : ℤ → Body ℤ
body_of amount = record {
  content_length = pos 14;
  decoded = ok (amount, false);
  syntax_text = λ n. "";
}

-- Merchant 1 captures its own payment; the one of merchant 2 is as before.
capture_route_grants :
    (serve server env approves
      (λ ref. ok ref)
      nothing_else
      1
      (Change.capture_route (7 ∷ []) (body_of (pos 600)))
      both).0
    ≡ Reply.replied 200 (to_payment_response captured_row)
unfolding serve capture_handler path_uuid decode_optional_json validate_amount capture capture_check
    capture_body ◌>>=◌ get_by_merchant_and_id get_for_update with_tx update insert_group
    new_capture_entry_group queue_webhook capture_row remaining_capturable fee
capture_route_grants = refl

serve_isolates_example :
    HasRow 8 theirs
      (serve server env approves
        (λ ref. ok ref)
        nothing_else
        1
        (Change.capture_route (7 ∷ []) (body_of (pos 600)))
        both).1
serve_isolates_example =
    serve_isolates server env approves (λ ref. ok ref) nothing_else 1
      (Change.capture_route (7 ∷ []) (body_of (pos 600))) both 8 theirs (ground arith) (λ t h. h)
      refl

-- More than was authorized.
abbrev too_much : Change
too_much = Change.capture_route (7 ∷ []) (body_of (pos 1001))

abbrev exceeds : ErrorBody
exceeds = record {
  code = "capture_exceeds_authorized";
  message = "The capture amount exceeds the authorized amount.";
  error_type = ErrorType.validation;
  field = "";
}

serve-refused_example : (both ≡ both) ⊎ (both ≡ nothing_else both)
unfolding serve capture_handler path_uuid decode_optional_json validate_amount capture capture_check
    ◌>>=◌ get_by_merchant_and_id capture_row remaining_capturable map_error
serve-refused_example =
    serve-refused server env approves (λ ref. ok ref) nothing_else 1 too_much both both
      {status = 422} {body = exceeds} refl

abbrev everything : PaymentsQuery
everything = record { status = []; from = []; to = []; cursor = []; limit = [] }

-- A listing has the rows of its own merchant only.
own_payments :
    (list_handler server env.faults 2 everything both).0
    ≡ Reply.replied 200
        (record { payments = to_payment_response theirs ∷ []; has_more = false; next_cursor = [] })
unfolding list_handler query_time decode_cursor query_limit list_transactions payments_page
own_payments = refl

unknown_status :
    (list_handler
      (record server { read_status = λ raw. Status.other })
      env.faults
      2
      (record everything { status = codes "lost" })
      both).0
    ≡ Reply.refused 400 (record {
      code = "invalid_request";
      message = "is not a known transaction status";
      error_type = ErrorType.validation;
      field = "status";
    })
unfolding list_handler map_error
unknown_status = refl

-- Three payments of one merchant, of which two have one time.
abbrev later : Transaction
later = record held { id = 9; created_at = pos 41 }

abbrev latest : Transaction
latest = record held { id = 10; created_at = pos 41 }

abbrev three : Store
three = record store { transactions = later ∷ held ∷ theirs ∷ latest ∷ [] }

abbrev by_two : PaymentsQuery
by_two = record everything { limit = codes "2" }

first_page :
    (list_handler server env.faults 1 by_two three).0
    ≡ Reply.replied 200 (record {
      payments = to_payment_response latest ∷ to_payment_response later ∷ [];
      has_more = true;
      next_cursor = encode_cursor server.texts (pos 41) 9;
    })
unfolding list_handler encode_cursor
first_page = refl

readable : (ts id : ℕ) → ts < 100 → id < 100 → IsReadable server.texts (pos ts) id
readable ts id h k = record {
  time_read = refl;
  uuid_read = refl;
  no_bar = (ground (arith, h), tt);
  time_bytes = (omega (arith, h), tt);
  uuid_bytes = (omega (arith, k), tt);
}

payments_walk_example :
    walk server env.faults 1 by_two three (suc (length (asked_for 1 none none none three))) []
    ≡ some (map to_payment_response (asked_for 1 none none none three))
unfolding query_time query_limit
payments_walk_example =
    payments_walk server env.faults 1 by_two three {status = none} {from = none} {to = none} {n = 2}
      refl refl refl refl refl (ground arith)
      (
        readable 41 9 (omega arith) (omega arith),
        (
          readable 40 7 (omega arith) (omega arith),
          (
            readable 41 8 (omega arith) (omega arith),
            (readable 41 10 (omega arith) (omega arith), tt),
          ),
        ),
      )
