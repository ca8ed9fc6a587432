-- ===== src/Text/Base64.antt =====
-- encoding/base64: the standard and the URL alphabet, with padding and without.
pub mod RoundTrip
use mini_payment_gateway.Prelude.{
  ℕ, suc, ◌+◌, ◌-◌, ◌*◌, ◌/◌, ◌%◌, ◌<◌, ◌≡◌, ◌≢◌, refl, ap, ◌∙◌, ◌⊎◌, Bool, true, false, not, ◌||◌,
  ◌&&◌, Option, none, some, [], ◌∷◌, ltb, leb, ◌==◌, if◌then◌else◌, arith,
}
use mini_payment_gateway.Prelude.Lists.{All, filter}
use mini_payment_gateway.Text.{Bytes}

-- An encoding: the characters of 62 and 63, and whether it pads.
pub record Encoding : Type 0 where
  pub char62 : ℕ
  pub char63 : ℕ
  pub padded : Bool

-- StdEncoding, RawStdEncoding and RawURLEncoding.
abbrev pub std_encoding : Encoding
std_encoding = record { char62 = b'+'; char63 = b'/'; padded = true }

abbrev pub raw_std_encoding : Encoding
raw_std_encoding = record { char62 = b'+'; char63 = b'/'; padded = false }

abbrev pub raw_url_encoding : Encoding
raw_url_encoding = record { char62 = b'-'; char63 = b'_'; padded = false }

-- The two characters are none of the others, and neither is white space or the padding.
abbrev pub IsAlphabet : Encoding → Type 0
IsAlphabet e =
    (e.char62 ≢ e.char63)
    × (e.char62 < 48)
    × (e.char63 < 48 ⊎ e.char63 ≡ 95)
    × (13 < e.char62)
    × (13 < e.char63)

unfoldable pub char_of : Encoding → ℕ → ℕ
char_of e v =
    if ltb v 26
    then 65 + v
    else if ltb v 52
    then 71 + v
    else if ltb v 62
    then v - 4
    else if v == 62
    then e.char62
    else e.char63

unfoldable pub value_of : Encoding → ℕ → Option ℕ
value_of e c =
    if leb 65 c && leb c 90
    then some (c - 65)
    else if leb 97 c && leb c 122
    then some (c - 71)
    else if leb 48 c && leb c 57
    then some (c + 4)
    else if c == e.char62
    then some 62
    else if c == e.char63
    then some 63
    else none

abbrev pad : Encoding → Bytes → Bytes
pad e padding = if e.padded then padding else []

-- `EncodeToString`.
unfoldable pub encode : Encoding → Bytes → Bytes
unfolding char_of
encode e [] = []
encode e (a ∷ []) = char_of e (a / 4) ∷ char_of e (a % 4 * 16) ∷ pad e (b'=' ∷ b'=' ∷ [])
encode e (a ∷ b ∷ []) =
    char_of e (a / 4) ∷ char_of e (a % 4 * 16 + b / 16) ∷ char_of e (b % 16 * 4) ∷ pad e (b'=' ∷ [])
encode e (a ∷ b ∷ c ∷ s) =
    char_of e (a / 4)
    ∷ char_of e (a % 4 * 16 + b / 16)
    ∷ char_of e (b % 16 * 4 + c / 64)
    ∷ char_of e (c % 64)
    ∷ encode e s

-- The bytes of two, three and four values. Bits that are left over are not looked at.
abbrev one_byte : Option ℕ → Option ℕ → Option Bytes
one_byte none x = none
one_byte (some w) none = none
one_byte (some w) (some x) = some ((w * 4 + x / 16) ∷ [])

abbrev two_bytes : Option ℕ → Option ℕ → Option ℕ → Option Bytes
two_bytes none x y = none
two_bytes (some w) none y = none
two_bytes (some w) (some x) none = none
two_bytes (some w) (some x) (some y) = some ((w * 4 + x / 16) ∷ (x % 16 * 16 + y / 4) ∷ [])

abbrev three_bytes : Option ℕ → Option ℕ → Option ℕ → Option ℕ → Option Bytes → Option Bytes
three_bytes (some w) (some x) (some y) (some z) (some rest) =
    some ((w * 4 + x / 16) ∷ (x % 16 * 16 + y / 4) ∷ (y % 4 * 64 + z) ∷ rest)
three_bytes w x y z rest = none

-- The last four characters of a padded text.
abbrev padded_end : Encoding → ℕ → ℕ → ℕ → Option Bytes
padded_end e a b c =
    if c == b'='
    then one_byte (value_of e a) (value_of e b)
    else two_bytes (value_of e a) (value_of e b) (value_of e c)

abbrev is_end : Encoding → ℕ → Bytes → Bool
is_end e d [] = e.padded && d == b'='
is_end e d (c ∷ s) = false

unfoldable pub decode_quanta : Encoding → Bytes → Option Bytes
unfolding value_of
decode_quanta e [] = some []
decode_quanta e (a ∷ []) = none
decode_quanta e (a ∷ b ∷ []) = if e.padded then none else one_byte (value_of e a) (value_of e b)
decode_quanta e (a ∷ b ∷ c ∷ []) =
    if e.padded then none else two_bytes (value_of e a) (value_of e b) (value_of e c)
decode_quanta e (a ∷ b ∷ c ∷ d ∷ s) =
    let rest = decode_quanta e s in
    if is_end e d s
    then padded_end e a b c
    else three_bytes (value_of e a) (value_of e b) (value_of e c) (value_of e d) rest

abbrev is_newline : ℕ → Bool
is_newline c = c == 10 || c == 13

-- `DecodeString`: line ends are skipped wherever they stand.
unfoldable pub decode : Encoding → Bytes → Option Bytes
unfolding decode_quanta
decode e s = decode_quanta e (filter (λ c. not (is_newline c)) s)

abbrev pub IsByte : ℕ → Type 0
IsByte b = b < 256
