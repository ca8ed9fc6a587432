-- ===== src/Signer.antt =====
-- internal/webhook/signer.go: the signature header of a payload. HMAC-SHA256 is an argument, from a
-- secret and a message to the sum.
pub mod Headers
pub mod Examples
use mini_payment_gateway.Prelude.{
  Bool, ◌||◌, Option, none, some, List, [], ◌∷◌, ◌++◌, Result, ok, err, if◌then◌else◌,
}
use mini_payment_gateway.Prelude.Int.{ℤ, ltb_ℤ}
use mini_payment_gateway.Domain.Transaction.{Time}
use mini_payment_gateway.Clock.{unix, unix_seconds, drift}
use mini_payment_gateway.Text.{Bytes, codes, bytes_eq, is_empty, hex}
use mini_payment_gateway.Text.Decimal.{parse_int, format_int}
use mini_payment_gateway.Text.Split.{split, cut, trim_space}

-- ErrMalformedSignature, ErrSignatureMismatch and ErrSignatureExpired.
pub data SignatureError : Type 0 where
  malformed mismatch expired : SignatureError

abbrev pub Hmac : Type 0
Hmac = Bytes → Bytes → Bytes

-- `computeSignature`.
unfoldable pub compute_signature : Hmac → Bytes → ℤ → Bytes → Bytes
unfolding format_int
compute_signature hmac secret ts body = hex (hmac secret (format_int ts ++ (codes "." ++ body)))

-- `Sign`.
unfoldable pub sign : Hmac → Bytes → Time → Bytes → Bytes
unfolding unix_seconds format_int compute_signature
sign hmac secret ts body =
    let t = unix_seconds ts in
    codes "t=" ++ (format_int t ++ (codes ",v1=" ++ compute_signature hmac secret t body))

-- The switch on the key of one part, on what `tsRaw` and `sig` hold.
abbrev pub assign : Bytes × Bytes → Option (Bytes × Bytes) → Bytes × Bytes
assign (ts_raw, sig) none = (ts_raw, sig)
assign (ts_raw, sig) (some (key, value)) =
    if bytes_eq key (codes "t")
    then (value, sig)
    else if bytes_eq key (codes "v1")
    then (ts_raw, value)
    else (ts_raw, sig)

-- The loop over the parts.
unfoldable pub read_parts : List Bytes → Bytes × Bytes → Bytes × Bytes
unfolding cut trim_space
read_parts [] found = found
read_parts (part ∷ parts) found = read_parts parts (assign found (cut b'=' (trim_space part)))

abbrev pub with_sig : Bytes → Option ℤ → Result SignatureError (ℤ × Bytes)
with_sig sig none = err SignatureError.malformed
with_sig sig (some ts) = ok (ts, sig)

-- `parseHeader`.
unfoldable pub parse_header : Bytes → Result SignatureError (ℤ × Bytes)
unfolding split read_parts parse_int
parse_header header =
    let (ts_raw, sig) = read_parts (split b',' header) ([], []) in
    if is_empty ts_raw || is_empty sig
    then err SignatureError.malformed
    else with_sig sig (parse_int ts_raw)

-- `Verify`, after the header is read.
unfoldable pub judge :
    Hmac
    → Bytes
    → Bytes
    → Time
    → ℤ
    → Result SignatureError (ℤ × Bytes)
    → Result SignatureError (Unit {0})
unfolding unix drift compute_signature
judge hmac secret body now tolerance (err e) = err e
judge hmac secret body now tolerance (ok (ts, sig)) =
    if ltb_ℤ tolerance (drift now (unix ts))
    then err SignatureError.expired
    else if bytes_eq (compute_signature hmac secret ts body) sig
    then ok tt
    else err SignatureError.mismatch

-- `Verify`.
unfoldable pub verify : Hmac → Bytes → Bytes → Bytes → Time → ℤ → Result SignatureError (Unit {0})
unfolding parse_header judge
verify hmac secret header body now tolerance =
    judge hmac secret body now tolerance (parse_header header)
