-- ===== src/Text.antt =====
-- Go's strings where the code walks them: a string is the list of its bytes. What the code uses of the
-- packages strings, strconv and encoding/hex is in this module and in the two below it.
pub mod Decimal
pub mod Split
pub mod Base64
use Prim.Native.Char.{code}
use Prim.Native.String
use mini_payment_gateway.Prelude.{
  ℕ, suc, ◌+◌, ◌/◌, ◌%◌, ◌<◌, ◌≤◌, ◌≡◌, ◌≢◌, refl, ap₂, Bool, true, false, ◌&&◌, ◌||◌, Option, none,
  some, List, [], ◌∷◌, ◌++◌, String, ltb, leb, ◌==◌, ==_iff, if◌then◌else◌, arith,
}
use mini_payment_gateway.Prelude.Lists.{length, All}

abbrev pub Bytes : Type 0
Bytes = List ℕ

-- The bytes of an ASCII literal.
abbrev pub codes : String → Bytes
codes String.[] = []
codes (String.◌∷◌ c s) = code c ∷ codes s

abbrev pub bytes_eq : Bytes → Bytes → Bool
bytes_eq [] [] = true
bytes_eq [] (b ∷ t) = false
bytes_eq (a ∷ s) [] = false
bytes_eq (a ∷ s) (b ∷ t) = a == b && bytes_eq s t

abbrev pub is_empty : Bytes → Bool
is_empty [] = true
is_empty (c ∷ s) = false

abbrev pub elem : ℕ → Bytes → Bool
elem b [] = false
elem b (c ∷ s) = c == b || elem b s

-- `strings.HasPrefix`.
abbrev pub has_prefix : Bytes → Bytes → Bool
has_prefix s [] = true
has_prefix [] (c ∷ p) = false
has_prefix (b ∷ s) (c ∷ p) = b == c && has_prefix s p

-- `strings.TrimPrefix`.
abbrev drop_bytes : Bytes → Bytes → Bytes
drop_bytes s [] = s
drop_bytes [] (c ∷ p) = []
drop_bytes (b ∷ s) (c ∷ p) = drop_bytes s p

abbrev pub trim_prefix : Bytes → Bytes → Bytes
trim_prefix s p = if has_prefix s p then drop_bytes s p else s

-- `hex.EncodeToString`.
abbrev hex_digit : ℕ → ℕ
hex_digit d = if ltb d 10 then 48 + d else 87 + d

abbrev pub hex : Bytes → Bytes
hex [] = []
hex (b ∷ s) = hex_digit (b / 16 % 16) ∷ hex_digit (b % 16) ∷ hex s

-- Bytes that are neither white space nor a separator.
abbrev pub IsPlain : ℕ → Type 0
IsPlain c = (c ≢ 44) × (c ≢ 61) × (32 < c) × (c < 127)

pub hex-All : (s : Bytes) → All IsPlain (hex s)
hex-All [] = tt
hex-All (b ∷ s) = (ground arith, (ground arith, hex-All s))

pub bytes_eq_refl : (s : Bytes) → bytes_eq s s ≡ true
bytes_eq_refl [] = refl
bytes_eq_refl (c ∷ s) = rw ((==_iff c c).1 refl) (bytes_eq_refl s)

pub bytes_eq→eq : (s t : Bytes) → bytes_eq s t ≡ true → s ≡ t
bytes_eq→eq [] [] h = refl
bytes_eq→eq [] (b ∷ t) h = cc
bytes_eq→eq (a ∷ s) [] h = cc
bytes_eq→eq (a ∷ s) (b ∷ t) h = ground (arith, bytes_eq→eq s t)

pub not_empty : (s : Bytes) → s ≢ [] → is_empty s ≡ false
not_empty [] h = absurd (h refl)
not_empty (c ∷ s) h = refl
