-- ===== src/Secrets.antt =====
-- internal/secrets: the encryption of merchants' secrets (cipher.go) and their generation
-- (generate.go). AES-GCM and the random bytes are arguments.
pub mod Cipher
use mini_payment_gateway.Prelude.{
  ℕ, String, ◌≡◌, Option, none, some, List, ◌++◌, Result, ok, err, ltb, if◌then◌else◌,
}
use mini_payment_gateway.Prelude.Lists.{length, take, drop}
use mini_payment_gateway.Domain.Errors.{Error}
use mini_payment_gateway.Text.{Bytes, codes, hex}
use mini_payment_gateway.Text.Base64.{std_encoding, encode, decode}

-- `cipher.AEAD` with its key: the nonce and the text come first, and no additional data is used.
pub record Aead : Type 0 where
  pub nonce_size : ℕ
  pub seal : Bytes → Bytes → Bytes
  pub open_sealed : Bytes → Bytes → Option Bytes

-- `Encrypt`; the first argument is what reading the nonce gives back.
unfoldable pub encrypt : Result Error Bytes → Aead → Bytes → Result Error Bytes
unfolding encode
encrypt (err e) aead plaintext = err e
encrypt (ok nonce) aead plaintext = ok (encode std_encoding (nonce ++ aead.seal nonce plaintext))

abbrev opened : Option Bytes → Result Error Bytes
opened none = err Error.decrypt
opened (some plaintext) = ok plaintext

abbrev open_raw : Aead → Option Bytes → Result Error Bytes
open_raw aead none = err Error.decrypt
open_raw aead (some raw) =
    if ltb (length raw) aead.nonce_size
    then err Error.decrypt
    else opened (aead.open_sealed (take aead.nonce_size raw) (drop aead.nonce_size raw))

-- `Decrypt`.
unfoldable pub decrypt : Aead → Bytes → Result Error Bytes
unfolding decode
decrypt aead encoded = open_raw aead (decode std_encoding encoded)

-- `randomString`, on what `rand.Read` gives back for the number of bytes.
unfoldable pub random_string : String → Result Error Bytes → Result Error Bytes
random_string prefix (err e) = err e
random_string prefix (ok buf) = ok (codes prefix ++ hex buf)

-- `NewAPIKey`, `NewAPISecret` and `NewWebhookSecret`.
unfoldable pub new_api_key : Result Error Bytes → Result Error Bytes
unfolding random_string
new_api_key = random_string "pk_test_"

unfoldable pub new_api_secret : Result Error Bytes → Result Error Bytes
unfolding random_string
new_api_secret = random_string "sk_test_"

unfoldable pub new_webhook_secret : Result Error Bytes → Result Error Bytes
unfolding random_string
new_webhook_secret = random_string "whsec_"
