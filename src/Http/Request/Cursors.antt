-- ===== src/Http/Request/Cursors.antt =====
-- A cursor is read back as the id that it was made from.
use mini_payment_gateway.Prelude.{◌≡◌, ◌≢◌, refl, some, [], ◌∷◌, ok, false, arith}
use mathlib.Core.List.{cons-ne-nil}
use mini_payment_gateway.Prelude.Int.{ℤ}
use mini_payment_gateway.Prelude.Int64.{InRange}
use mini_payment_gateway.Prelude.Lists.{All}
use mini_payment_gateway.Text.{Bytes, is_empty, not_empty, IsPlain}
use mini_payment_gateway.Text.Decimal.{
  format_int, parse_int-format_int, format_int-All, format_int-ne-nil,
}
use mini_payment_gateway.Text.Base64.{Encoding, raw_url_encoding, encode, IsByte}
use mini_payment_gateway.Text.Base64.RoundTrip.{decode-encode}
use mini_payment_gateway.Http.Request.{encode_ledger_cursor, decode_ledger_cursor}

plain-IsByte : (s : Bytes) → All IsPlain s → All IsByte s
plain-IsByte [] h = tt
plain-IsByte (c ∷ s) h = (ground arith, plain-IsByte s h.1)

pub encode-ne-nil : (e : Encoding) (s : Bytes) → s ≢ [] → encode e s ≢ []
unfolding encode
encode-ne-nil e [] h = absurd (h refl)
encode-ne-nil e (a ∷ []) h = cons-ne-nil _ _
encode-ne-nil e (a ∷ b ∷ []) h = cons-ne-nil _ _
encode-ne-nil e (a ∷ b ∷ c ∷ s) h = cons-ne-nil _ _

pub encode_ledger_cursor-not_empty : (id : ℤ) → is_empty (encode_ledger_cursor id) ≡ false
unfolding encode_ledger_cursor
encode_ledger_cursor-not_empty id =
    not_empty _ (encode-ne-nil raw_url_encoding (format_int id) (format_int-ne-nil id))

-- The cursor of an id that fits an int64 is read back as the id.
pub decode_ledger_cursor-encode_ledger_cursor :
    (id : ℤ) → InRange id → decode_ledger_cursor (encode_ledger_cursor id) ≡ ok (some id)
unfolding decode_ledger_cursor encode_ledger_cursor
decode_ledger_cursor-encode_ledger_cursor id h =
    rw
      (
        encode_ledger_cursor-not_empty id,
        decode-encode raw_url_encoding (ground arith) (format_int id)
            (plain-IsByte (format_int id) (format_int-All id)),
        parse_int-format_int id h,
      )
      refl
