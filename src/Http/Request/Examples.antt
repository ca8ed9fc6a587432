-- ===== src/Http/Request/Examples.antt =====
-- Parameters of requests on concrete values.
use mini_payment_gateway.Prelude.{◌≡◌, refl, some, [], ok, err}
use mini_payment_gateway.Prelude.Int.{pos, negsuc}
use mini_payment_gateway.Domain.Errors.{Error}
use mini_payment_gateway.Text.{codes}
use mini_payment_gateway.Http.Request.{
  query_limit, encode_ledger_cursor, decode_ledger_cursor, validate_amount,
}
use mini_payment_gateway.Http.Request.Pages.{Texts, encode_cursor, decode_cursor}
use mini_payment_gateway.Text.Decimal.{format_int, parse_int}

limits :
    (query_limit [] 50 200 ≡ ok 50)
    × (query_limit (codes "+7") 50 200 ≡ ok 7)
    × (query_limit (codes "999") 50 200 ≡ ok 200)
    × (query_limit (codes "0") 50 200 ≡ err (Error.invalid "limit" "must be a positive integer"))
    × (query_limit (codes "9223372036854775808") 50 200
        ≡ err (Error.invalid "limit" "must be a positive integer"))
unfolding query_limit
limits = (refl, refl, refl, refl, refl)

cursor_of_42 : encode_ledger_cursor (pos 42) ≡ codes "NDI"
unfolding encode_ledger_cursor
cursor_of_42 = refl

bad_cursor :
    decode_ledger_cursor (codes "N!") ≡ err (Error.invalid "cursor" "is not a valid cursor")
unfolding decode_ledger_cursor
bad_cursor = refl

amounts :
    (validate_amount (pos 0) ≡ ok (pos 0))
    × (validate_amount (negsuc 0) ≡ err (Error.invalid "amount" "must not be negative"))
unfolding validate_amount
amounts = (refl, refl)

negative_cursor : decode_ledger_cursor (encode_ledger_cursor (negsuc 41)) ≡ ok (some (negsuc 41))
unfolding decode_ledger_cursor encode_ledger_cursor
negative_cursor = refl

-- A time as its number of nanoseconds, and only the id 7.
abbrev texts : Texts
texts = record {
  time_text = format_int;
  parse_time = parse_int;
  uuid_text = λ id. codes "7";
  parse_uuid = λ s. some 7;
}

cursor_of_page : encode_cursor texts (pos 12) 7 ≡ codes "MTJ8Nw"
unfolding encode_cursor format_int
cursor_of_page = refl

page_of_cursor :
    (decode_cursor texts (codes "MTJ8Nw") ≡ ok (some (pos 12, 7)))
    × (decode_cursor texts (codes "MTI3") ≡ err (Error.invalid "cursor" "is not a valid cursor"))
unfolding decode_cursor parse_int
page_of_cursor = (refl, refl)
