-- ===== src/Text/Base64/RoundTrip.antt =====
-- What is encoded in base64 is decoded to itself.
use mini_payment_gateway.Prelude.{
  ℕ, ◌+◌, ◌*◌, ◌/◌, ◌%◌, ◌<◌, ◌≡◌, refl, false, not, Bool-cases, inl, inr, some, [], ◌∷◌, ◌==◌,
  arith,
}
use mini_payment_gateway.Prelude.Lists.{All, filter}
use mini_payment_gateway.Text.{Bytes}
use mini_payment_gateway.Text.Base64.{
  Encoding, IsAlphabet, IsByte, char_of, value_of, encode, decode, decode_quanta, is_newline,
  is_end, one_byte, two_bytes, three_bytes,
}

module _ (e : Encoding) (ok : IsAlphabet e) where
  value_of-char_of : (v : ℕ) → v < 64 → value_of e (char_of e v) ≡ some v
  unfolding value_of char_of
  value_of-char_of v h = ground arith

  char_of-ne-pad : (v : ℕ) → v < 64 → (char_of e v == b'=') ≡ false
  unfolding char_of
  char_of-ne-pad v h = ground arith

  char_of-plain : (v : ℕ) → v < 64 → is_newline (char_of e v) ≡ false
  unfolding char_of
  char_of-plain v h = ground arith

  one_byte-encode :
      (a : ℕ)
      → IsByte a
      → one_byte (value_of e (char_of e (a / 4))) (value_of e (char_of e (a % 4 * 16)))
        ≡ some (a ∷ [])
  one_byte-encode a h = grind (arith, value_of-char_of)

  two_bytes-encode :
      (a b : ℕ)
      → IsByte a
      → IsByte b
      → two_bytes
          (value_of e (char_of e (a / 4)))
          (value_of e (char_of e (a % 4 * 16 + b / 16)))
          (value_of e (char_of e (b % 16 * 4)))
        ≡ some (a ∷ b ∷ [])
  two_bytes-encode a b h k = grind (arith, value_of-char_of)

  three_bytes-encode :
      (a b c : ℕ) (s : Bytes)
      → IsByte a
      → IsByte b
      → IsByte c
      → three_bytes
          (value_of e (char_of e (a / 4)))
          (value_of e (char_of e (a % 4 * 16 + b / 16)))
          (value_of e (char_of e (b % 16 * 4 + c / 64)))
          (value_of e (char_of e (c % 64)))
          (some s)
        ≡ some (a ∷ b ∷ c ∷ s)
  three_bytes-encode a b c s h k l = grind (arith, value_of-char_of)

  is_end_char : (v : ℕ) (s : Bytes) → v < 64 → is_end e (char_of e v) s ≡ false
  is_end_char v [] h = ground (arith, char_of-ne-pad v h)
  is_end_char v (c ∷ s) h = refl

  decode_quanta-encode : (s : Bytes) → All IsByte s → decode_quanta e (encode e s) ≡ some s
  unfolding decode_quanta encode
  decode_quanta-encode [] h = refl
  decode_quanta-encode (a ∷ []) h = elim (Bool-cases e.padded) [
    | inl p ↦ rw p (one_byte-encode a h.0)
    | inr p ↦ rw p (one_byte-encode a h.0)
  ]
  decode_quanta-encode (a ∷ b ∷ []) h = elim (Bool-cases e.padded) [
    | inl p ↦ rw (p, char_of-ne-pad (b % 16 * 4) (omega arith)) (two_bytes-encode a b h.0 h.1.0)
    | inr p ↦ rw p (two_bytes-encode a b h.0 h.1.0)
  ]
  decode_quanta-encode (a ∷ b ∷ c ∷ s) h =
      rw (is_end_char (c % 64) (encode e s) (omega arith), decode_quanta-encode s h.1.1.1)
        (three_bytes-encode a b c s h.0 h.1.0 h.1.1.0)

  skip_newlines :
      (s : Bytes) → All IsByte s → filter (λ c. not (is_newline c)) (encode e s) ≡ encode e s
  unfolding encode
  skip_newlines [] h = refl
  skip_newlines (a ∷ []) h = elim (Bool-cases e.padded) [
    | inl p ↦ grind (arith, char_of-plain)
    | inr p ↦ grind (arith, char_of-plain)
  ]
  skip_newlines (a ∷ b ∷ []) h = elim (Bool-cases e.padded) [
    | inl p ↦ grind (arith, char_of-plain)
    | inr p ↦ grind (arith, char_of-plain)
  ]
  skip_newlines (a ∷ b ∷ c ∷ s) h =
      rw
        (
          char_of-plain (a / 4) (omega arith),
          char_of-plain (a % 4 * 16 + b / 16) (omega arith),
          char_of-plain (b % 16 * 4 + c / 64) (omega arith),
          char_of-plain (c % 64) (omega arith),
          skip_newlines s h.1.1.1,
        )
        refl

  pub decode-encode : (s : Bytes) → All IsByte s → decode e (encode e s) ≡ some s
  unfolding decode
  decode-encode s h = rw (skip_newlines s h) (decode_quanta-encode s h)
