-- ===== src/Http/Request.antt =====
-- internal/transport/http/request.go: parameters and cursors of a request.
pub mod Cursors
pub mod Limits
pub mod Pages
pub mod Bodies
mod Examples
use mini_payment_gateway.Prelude.{
  ℕ, Bool, true, false, not, ◌&&◌, ◌||◌, Option, none, some, List, [], ◌∷◌, ◌++◌, Result, ok, err,
  String, ltb, leb, if◌then◌else◌,
}
use mini_payment_gateway.Prelude.Int.{ℤ, pos, pos_part, ltb_ℤ}
use mini_payment_gateway.Prelude.Lists.{length}
use mini_payment_gateway.Money.{Amount}
use mini_payment_gateway.Domain.Errors.{Error}
use mini_payment_gateway.Domain.Transaction.{Time}
use mini_payment_gateway.Text.{Bytes, is_empty}
use mini_payment_gateway.Text.Decimal.{parse_int, format_int}
use mini_payment_gateway.Text.Base64.{raw_url_encoding, encode, decode}

-- `queryLimit`.
abbrev pub clamped : ℕ → Option ℤ → Result Error ℕ
clamped max none = err (Error.invalid "limit" "must be a positive integer")
clamped max (some n) =
    if ltb_ℤ n (pos 1)
    then err (Error.invalid "limit" "must be a positive integer")
    else ok (if ltb max (pos_part n) then max else pos_part n)

unfoldable pub query_limit : Bytes → ℕ → ℕ → Result Error ℕ
unfolding parse_int
query_limit raw def max = if is_empty raw then ok def else clamped max (parse_int raw)

-- `queryTime`, on what `time.Parse` makes of the text.
abbrev parsed_time : String → Option Time → Result Error (Option Time)
parsed_time field none = err (Error.invalid field "must be an RFC3339 timestamp")
parsed_time field (some t) = ok (some t)

unfoldable pub query_time : (Bytes → Option Time) → Bytes → String → Result Error (Option Time)
query_time parse_time raw field =
    if is_empty raw then ok none else parsed_time field (parse_time raw)

-- `pathUUID`, on what `uuid.Parse` makes of the text.
abbrev parsed_id : String → Option ℕ → Result Error ℕ
parsed_id field none = err (Error.invalid field "must be a UUID")
parsed_id field (some id) = ok id

unfoldable pub path_uuid : (Bytes → Option ℕ) → Bytes → String → Result Error ℕ
path_uuid parse_uuid raw field = parsed_id field (parse_uuid raw)

-- `AmountRequest.Validate`.
unfoldable pub validate_amount : ℤ → Result Error Amount
validate_amount amount =
    if ltb_ℤ amount (pos 0) then err (Error.invalid "amount" "must not be negative") else ok amount

-- `encodeLedgerCursor`.
unfoldable pub encode_ledger_cursor : ℤ → Bytes
unfolding encode format_int
encode_ledger_cursor id = encode raw_url_encoding (format_int id)

abbrev cursor_number : Option ℤ → Result Error (Option ℤ)
cursor_number none = err (Error.invalid "cursor" "is not a valid cursor")
cursor_number (some id) = ok (some id)

abbrev cursor_text : Option Bytes → Result Error (Option ℤ)
cursor_text none = err (Error.invalid "cursor" "is not a valid cursor")
cursor_text (some s) = cursor_number (parse_int s)

-- `decodeLedgerCursor`; no cursor is none.
unfoldable pub decode_ledger_cursor : Bytes → Result Error (Option ℤ)
unfolding decode parse_int
decode_ledger_cursor raw =
    if is_empty raw then ok none else cursor_text (decode raw_url_encoding raw)
