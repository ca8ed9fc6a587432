-- ===== src/Text/Split.antt =====
-- strings.Split at one byte, strings.Cut at one byte, and strings.TrimSpace.
use mini_payment_gateway.Prelude.{
  ℕ, zero, suc, ◌<◌, ◌≡◌, ◌≢◌, refl, Bool, ◌&&◌, ◌||◌, Option, none, some, List, [], ◌∷◌, ◌++◌, leb,
  ◌==◌, if◌then◌else◌, arith,
}
use mini_payment_gateway.Prelude.Lists.{length, All}
use mini_payment_gateway.Text.{Bytes}

-- A byte before the first of the parts.
abbrev push : ℕ → List Bytes → List Bytes
push c [] = (c ∷ []) ∷ []
push c (part ∷ parts) = (c ∷ part) ∷ parts

-- `strings.Split`: at least one part, which may be empty.
unfoldable pub split : ℕ → Bytes → List Bytes
split sep [] = [] ∷ []
split sep (c ∷ s) = let parts = split sep s in if c == sep then [] ∷ parts else push c parts

-- `strings.Cut`: what is before the first separator and after it.
abbrev before : ℕ → Option (Bytes × Bytes) → Option (Bytes × Bytes)
before c none = none
before c (some (key, value)) = some (c ∷ key, value)

unfoldable pub cut : ℕ → Bytes → Option (Bytes × Bytes)
cut sep [] = none
cut sep (c ∷ s) = let rest = cut sep s in if c == sep then some ([], s) else before c rest

-- The white space of the package unicode, in UTF-8: one byte, two bytes, or three.
abbrev narrow_space : ℕ → Bool
narrow_space c = leb 9 c && leb c 13 || c == 32

abbrev two_byte_space : ℕ → ℕ → Bool
two_byte_space a b = a == 194 && (b == 133 || b == 160)

abbrev three_byte_space : ℕ → ℕ → ℕ → Bool
three_byte_space a b c =
    a == 225 && b == 154 && c == 128
    || a == 226 && b == 128 && (leb 128 c && leb c 138 || c == 168 || c == 169 || c == 175)
    || a == 226 && b == 129 && c == 159
    || a == 227 && b == 128 && c == 128

-- A white-space character at the front is dropped.
abbrev drop_space : Bytes → Option Bytes
drop_space [] = none
drop_space (a ∷ []) = if narrow_space a then some [] else none
drop_space (a ∷ b ∷ []) =
    if narrow_space a then some (b ∷ []) else if two_byte_space a b then some [] else none
drop_space (a ∷ b ∷ c ∷ s) =
    if narrow_space a
    then some (b ∷ c ∷ s)
    else if two_byte_space a b
    then some (c ∷ s)
    else if three_byte_space a b c
    then some s
    else none

-- As many rounds as there are bytes are enough, since each drops one byte at least.
trim_left : ℕ → Bytes → Bytes
trim_left zero s = s
trim_left (suc k) s = elim (drop_space s) [ none ↦ s | some rest ↦ trim_left k rest ]

abbrev keep : ℕ → Bytes → Bytes → Bytes
keep c s [] = []
keep c s (d ∷ rest) = c ∷ s

-- The longest end that is white space only is dropped.
trim_right : Bytes → Bytes
unfolding trim_left
trim_right [] = []
trim_right (c ∷ s) = let rest = trim_right s in keep c rest (trim_left (suc (length s)) (c ∷ s))

unfoldable pub trim_space : Bytes → Bytes
unfolding trim_left trim_right
trim_space s = trim_right (trim_left (length s) s)

drop_space_plain : (c : ℕ) (s : Bytes) → 32 < c → c < 127 → drop_space (c ∷ s) ≡ none
drop_space_plain c [] h k = ground arith
drop_space_plain c (a ∷ []) h k = ground arith
drop_space_plain c (a ∷ b ∷ s) h k = ground arith

abbrev IsGraphic : ℕ → Type 0
IsGraphic c = (32 < c) × (c < 127)

trim_left_graphic : (k : ℕ) (s : Bytes) → All IsGraphic s → trim_left k s ≡ s
unfolding trim_left
trim_left_graphic zero s h = refl
trim_left_graphic (suc k) [] h = refl
trim_left_graphic (suc k) (c ∷ s) h = ground (arith, drop_space_plain c s h.0.0 h.0.1)

trim_right_graphic : (s : Bytes) → All IsGraphic s → trim_right s ≡ s
unfolding trim_right
trim_right_graphic [] h = refl
trim_right_graphic (c ∷ s) h =
    rw (trim_left_graphic (suc (length s)) (c ∷ s) h, trim_right_graphic s h.1) refl

-- A text of visible ASCII characters has nothing to trim.
pub trim_space_graphic : (s : Bytes) → All IsGraphic s → trim_space s ≡ s
unfolding trim_space
trim_space_graphic s h = rw (trim_left_graphic (length s) s h) (trim_right_graphic s h)

-- A part without the separator is one part.
pub split_last : (sep : ℕ) (s : Bytes) → All (λ c. c ≢ sep) s → split sep s ≡ s ∷ []
unfolding split
split_last sep [] h = refl
split_last sep (c ∷ s) h = rw (split_last sep s h.1) (ground arith)

pub split-append :
    (sep : ℕ) (s t : Bytes) → All (λ c. c ≢ sep) s → split sep (s ++ sep ∷ t) ≡ s ∷ split sep t
unfolding split
split-append sep [] t h = ground arith
split-append sep (c ∷ s) t h = rw (split-append sep s t h.1) (ground arith)

pub cut-append :
    (sep : ℕ) (s t : Bytes) → All (λ c. c ≢ sep) s → cut sep (s ++ sep ∷ t) ≡ some (s, t)
unfolding cut
cut-append sep [] t h = ground arith
cut-append sep (c ∷ s) t h = rw (cut-append sep s t h.1) (ground arith)
