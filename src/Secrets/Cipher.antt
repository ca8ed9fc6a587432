-- ===== src/Secrets/Cipher.antt =====
-- What is encrypted is decrypted to itself.
use mini_payment_gateway.Prelude.{
  ◌≡◌, refl, sym, ap, subst, some, [], ◌∷◌, ◌++◌, Result, ok, err, arith,
}
use mini_payment_gateway.Prelude.Lists.{length, length-append, take, drop, All}
use mini_payment_gateway.Domain.Errors.{Error}
use mini_payment_gateway.Text.{Bytes, codes, hex, hex-All, IsPlain}
use mini_payment_gateway.Text.Base64.{std_encoding, encode, IsByte}
use mini_payment_gateway.Text.Base64.RoundTrip.{decode-encode}
use mini_payment_gateway.Secrets.{Aead, encrypt, decrypt, new_api_secret, random_string}

-- What the code relies on of AES-GCM: bytes that were sealed with a nonce are opened with it, and the
-- sealed text is made of bytes.
pub record IsAead (aead : Aead) : Type 0 where
  pub opens :
      (nonce text : Bytes)
      → length nonce ≡ aead.nonce_size
      → All IsByte text
      → aead.open_sealed nonce (aead.seal nonce text) ≡ some text
  pub bytes : (nonce text : Bytes) → All IsByte text → All IsByte (aead.seal nonce text)

All-append : (s t : Bytes) → All IsByte s → All IsByte t → All IsByte (s ++ t)
All-append [] t h k = k
All-append (c ∷ s) t h k = (h.0, All-append s t h.1 k)

take-append : (s t : Bytes) → take (length s) (s ++ t) ≡ s
take-append [] t = refl
take-append (c ∷ s) t = ap (λ r. c ∷ r) (take-append s t)

drop-append : (s t : Bytes) → drop (length s) (s ++ t) ≡ t
drop-append [] t = refl
drop-append (c ∷ s) t = drop-append s t

pub decrypt-encrypt :
    (aead : Aead) (nonce text : Bytes) {sealed : Bytes}
    → IsAead aead
    → length nonce ≡ aead.nonce_size
    → All IsByte nonce
    → All IsByte text
    → encrypt (ok nonce) aead text ≡ ok sealed
    → decrypt aead sealed ≡ ok text
unfolding encrypt decrypt
decrypt-encrypt aead nonce text {sealed} law size plain bytes h =
    let same : encode std_encoding (nonce ++ aead.seal nonce text) ≡ sealed = cc in
    rw
      (
        sym same,
        decode-encode std_encoding (ground arith) (nonce ++ aead.seal nonce text)
            (All-append nonce (aead.seal nonce text) plain (law.bytes nonce text bytes)),
        sym size,
        take-append nonce (aead.seal nonce text),
        drop-append nonce (aead.seal nonce text),
        length-append nonce (aead.seal nonce text),
        law.opens nonce text size bytes,
      )
      (ground arith)

hex-IsByte : (s : Bytes) → All IsPlain s → All IsByte s
hex-IsByte [] h = tt
hex-IsByte (c ∷ s) h = (ground arith, hex-IsByte s h.1)

-- The secret that is generated is made of bytes.
pub new_api_secret-IsByte :
    (r : Result Error Bytes) {secret : Bytes} → new_api_secret r ≡ ok secret → All IsByte secret
unfolding new_api_secret random_string
new_api_secret-IsByte (err e) h = cc
new_api_secret-IsByte (ok buf) {secret} h =
    let same : codes "sk_test_" ++ hex buf ≡ secret = cc in
    subst (All IsByte) same
      (All-append (codes "sk_test_") (hex buf) (ground arith) (hex-IsByte (hex buf) (hex-All buf)))
