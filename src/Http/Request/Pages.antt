-- ===== src/Http/Request/Pages.antt =====
-- internal/transport/http/request.go: the cursor of a listing of transactions, the base64 of a time and
-- an id. How times and ids are written and read is an argument.
use mini_payment_gateway.Prelude.{
  ℕ, ◌≡◌, ◌≢◌, refl, Option, none, some, [], ◌∷◌, ◌++◌, Result, ok, err, if◌then◌else◌, arith,
}
use mathlib.Core.List.{cons-ne-nil}
use mini_payment_gateway.Prelude.Lists.{All}
use mini_payment_gateway.Domain.Errors.{Error}
use mini_payment_gateway.Domain.Transaction.{Time}
use mini_payment_gateway.Text.{Bytes, is_empty, not_empty}
use mini_payment_gateway.Text.Split.{cut, cut-append}
use mini_payment_gateway.Text.Base64.{raw_url_encoding, encode, decode, IsByte}
use mini_payment_gateway.Text.Base64.RoundTrip.{decode-encode}
use mini_payment_gateway.Http.Request.Cursors.{encode-ne-nil}

-- `Format(time.RFC3339Nano)` and `time.Parse`, `uuid.UUID.String` and `uuid.Parse`.
pub record Texts : Type 0 where
  pub time_text : Time → Bytes
  pub parse_time : Bytes → Option Time
  pub uuid_text : ℕ → Bytes
  pub parse_uuid : Bytes → Option ℕ

-- `encodeCursor`.
unfoldable pub encode_cursor : Texts → Time → ℕ → Bytes
unfolding encode
encode_cursor texts ts id =
    encode raw_url_encoding (texts.time_text ts ++ b'|' ∷ texts.uuid_text id)

abbrev refused : Result Error (Option (Time × ℕ))
refused = err (Error.invalid "cursor" "is not a valid cursor")

abbrev with_id : Time → Option ℕ → Result Error (Option (Time × ℕ))
with_id ts none = refused
with_id ts (some id) = ok (some (ts, id))

abbrev with_time : Option Time → Option ℕ → Result Error (Option (Time × ℕ))
with_time none id = refused
with_time (some ts) id = with_id ts id

abbrev of_parts : Texts → Option (Bytes × Bytes) → Result Error (Option (Time × ℕ))
of_parts texts none = refused
of_parts texts (some (ts_raw, id_raw)) =
    with_time (texts.parse_time ts_raw) (texts.parse_uuid id_raw)

abbrev of_decoded : Texts → Option Bytes → Result Error (Option (Time × ℕ))
unfolding cut
of_decoded texts none = refused
of_decoded texts (some s) = of_parts texts (cut b'|' s)

-- `decodeCursor`; no cursor is none.
unfoldable pub decode_cursor : Texts → Bytes → Result Error (Option (Time × ℕ))
unfolding decode of_decoded
decode_cursor texts raw =
    if is_empty raw then ok none else of_decoded texts (decode raw_url_encoding raw)

-- What is documented of the four: each reader reads what its writer wrote, and the texts are bytes,
-- that of a time with no bar in it.
pub record IsReadable (texts : Texts) (ts : Time) (id : ℕ) : Type 0 where
  pub time_read : texts.parse_time (texts.time_text ts) ≡ some ts
  pub uuid_read : texts.parse_uuid (texts.uuid_text id) ≡ some id
  pub no_bar : All (λ c. c ≢ b'|') (texts.time_text ts)
  pub time_bytes : All IsByte (texts.time_text ts)
  pub uuid_bytes : All IsByte (texts.uuid_text id)

-- The two texts with the bar between them.
joined-ne-nil : (s t : Bytes) → s ++ b'|' ∷ t ≢ []
joined-ne-nil [] t = cons-ne-nil b'|' t
joined-ne-nil (c ∷ s) t = cons-ne-nil c (s ++ b'|' ∷ t)

joined-IsByte : (s t : Bytes) → All IsByte s → All IsByte t → All IsByte (s ++ b'|' ∷ t)
joined-IsByte [] t h k = (ground arith, k)
joined-IsByte (c ∷ s) t h k = (h.0, joined-IsByte s t h.1 k)

-- The cursor of a time and an id is read back as these.
pub decode_cursor-encode_cursor :
    (texts : Texts) (ts : Time) (id : ℕ)
    → IsReadable texts ts id
    → decode_cursor texts (encode_cursor texts ts id) ≡ ok (some (ts, id))
unfolding decode_cursor encode_cursor
decode_cursor-encode_cursor texts ts id h =
    let before = texts.time_text ts in
    let after = texts.uuid_text id in
    rw
      (
        not_empty _
            (encode-ne-nil raw_url_encoding (before ++ b'|' ∷ after) (joined-ne-nil before after)),
        decode-encode raw_url_encoding (ground arith) (before ++ b'|' ∷ after)
            (joined-IsByte before after h.time_bytes h.uuid_bytes),
        cut-append b'|' before after h.no_bar,
        h.time_read,
        h.uuid_read,
      )
      refl
