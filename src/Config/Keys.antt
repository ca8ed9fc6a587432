-- ===== src/Config/Keys.antt =====
-- `decodeKey`, and `decodeHexOrBase64` of internal/config/encoding.go.
use mini_payment_gateway.Prelude.{
  ℕ, ◌+◌, ◌-◌, ◌*◌, ◌≡◌, not, ◌&&◌, Option, none, some, [], ◌∷◌, Result, ok, err, leb, ◌==◌, ==_iff,
  Bool-cases, inl, inr, if◌then◌else◌, arith,
}
use mini_payment_gateway.Prelude.Lists.{length}
use mini_payment_gateway.Text.{Bytes, is_empty}
use mini_payment_gateway.Text.Split.{trim_space}
use mini_payment_gateway.Text.Base64.{std_encoding, raw_std_encoding, decode}

pub data KeyError : Type 0 where
  key_required neither_hex_nor_base64 : KeyError
  wrong_length : ℕ → KeyError

abbrev hex_value : ℕ → Option ℕ
hex_value c =
    if leb 48 c && leb c 57
    then some (c - 48)
    else if leb 97 c && leb c 102
    then some (c - 87)
    else if leb 65 c && leb c 70
    then some (c - 55)
    else none

abbrev hex_pair : Option ℕ → Option ℕ → Option Bytes → Option Bytes
hex_pair (some a) (some b) (some rest) = some ((a * 16 + b) ∷ rest)
hex_pair a b rest = none

-- `hex.DecodeString`.
unfoldable pub hex_decode : Bytes → Option Bytes
hex_decode [] = some []
hex_decode (a ∷ []) = none
hex_decode (a ∷ b ∷ s) = let rest = hex_decode s in hex_pair (hex_value a) (hex_value b) rest

-- `decodeHexOrBase64`: the first of the three that reads the text.
unfoldable pub decode_hex_or_base64 : Bytes → Option Bytes
unfolding hex_decode decode
decode_hex_or_base64 s = elim (hex_decode s) [
  | some b ↦ some b
  | none ↦ elim (decode std_encoding s) [ some b ↦ some b | none ↦ decode raw_std_encoding s ]
]

abbrev of_length_32 : Option Bytes → Result KeyError Bytes
of_length_32 none = err KeyError.neither_hex_nor_base64
of_length_32 (some key) =
    if not (length key == 32) then err (KeyError.wrong_length (length key)) else ok key

-- `decodeKey`.
unfoldable pub decode_key : Bytes → Result KeyError Bytes
unfolding decode_hex_or_base64 trim_space
decode_key raw =
    if is_empty raw
    then err KeyError.key_required
    else of_length_32 (decode_hex_or_base64 (trim_space raw))

of_length_32-length : (o : Option Bytes) {key : Bytes} → of_length_32 o ≡ ok key → length key ≡ 32
of_length_32-length none h = cc
of_length_32-length (some k) {key} h = ground (arith, ==_iff (length k) 32)

-- A key that is decoded has 32 bytes.
pub decode_key-length : (raw : Bytes) {key : Bytes} → decode_key raw ≡ ok key → length key ≡ 32
unfolding decode_key
decode_key-length raw {key} h = elim (Bool-cases (is_empty raw)) [
  | inl p ↦ let same = rw p at h in cc
  | inr p ↦ of_length_32-length (decode_hex_or_base64 (trim_space raw)) {key = key} (rw p at h)
]
