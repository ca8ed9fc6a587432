-- ===== src/Merchants/Service.antt =====
-- internal/service/merchant_service.go, and internal/transport/http/middleware_auth.go: the creation
-- of a merchant and the authentication of a request.
pub mod Canonical
pub mod Authentication
pub mod Creation
use mini_payment_gateway.Prelude.{
  ℕ, Bool, true, false, not, ◌||◌, Option, none, some, List, [], ◌∷◌, ◌++◌, Result, ok, err, Action,
  ◌>>=◌, ◌>>◌, pure, from_result, if◌then◌else◌,
}
use mini_payment_gateway.Prelude.Int.{ℤ, ltb_ℤ}
use mini_payment_gateway.Domain.Errors.{Error}
use mini_payment_gateway.Domain.Transaction.{Time}
use mini_payment_gateway.Clock.{unix, drift}
use mini_payment_gateway.Text.{Bytes, codes, bytes_eq, is_empty, hex, trim_prefix}
use mini_payment_gateway.Text.Decimal.{parse_int}
use mini_payment_gateway.Signer.{Hmac}
use mini_payment_gateway.Secrets.{
  Aead, encrypt, decrypt, new_api_key, new_api_secret, new_webhook_secret,
}
use mini_payment_gateway.Merchants.{
  MerchantStatus, Merchant, Table, is_active, validate_merchant_input, insert_merchant,
  merchant_by_id, merchant_by_api_key,
}

pub record CreateMerchantInput : Type 0 where
  pub name : Bytes
  pub email : Bytes
  pub webhook_url : Bytes

pub record CreatedMerchant : Type 0 where
  pub merchant : Merchant
  pub api_secret : Bytes
  pub webhook_secret : Bytes

-- What a creation draws: the random bytes of the three secrets and the two nonces, the id, the clock.
pub record Draws : Type 0 where
  pub key_bytes : Result Error Bytes
  pub api_bytes : Result Error Bytes
  pub webhook_bytes : Result Error Bytes
  pub api_nonce : Result Error Bytes
  pub webhook_nonce : Result Error Bytes
  pub id : ℕ
  pub now : Time
  pub insert_fault : Option Error

abbrev pub new_merchant : Draws → CreateMerchantInput → Bytes → Bytes → Bytes → Merchant
new_merchant d input api_key api_secret_enc webhook_secret_enc = record {
  id = d.id;
  name = input.name;
  email = input.email;
  api_key = api_key;
  api_secret_enc = api_secret_enc;
  webhook_url = input.webhook_url;
  webhook_secret_enc = webhook_secret_enc;
  status = MerchantStatus.active;
  created_at = d.now;
  updated_at = d.now;
}

-- `MerchantService.Create`.
unfoldable pub create_merchant :
    Aead → Draws → CreateMerchantInput → Action Error Table CreatedMerchant
create_merchant aead d input = do
  from_result (validate_merchant_input input.name input.email input.webhook_url)
  api_key ← from_result (new_api_key d.key_bytes)
  api_secret ← from_result (new_api_secret d.api_bytes)
  webhook_secret ← from_result (new_webhook_secret d.webhook_bytes)
  api_secret_enc ← from_result (encrypt d.api_nonce aead api_secret)
  webhook_secret_enc ← from_result (encrypt d.webhook_nonce aead webhook_secret)
  insert_merchant d.insert_fault (new_merchant d input api_key api_secret_enc webhook_secret_enc)
  pure (record {
    merchant = new_merchant d input api_key api_secret_enc webhook_secret_enc;
    api_secret = api_secret;
    webhook_secret = webhook_secret;
  })

pub record SignedRequest : Type 0 where
  pub api_key : Bytes
  pub timestamp : Bytes
  pub signature : Bytes
  pub http_method : Bytes
  pub path : Bytes
  pub body : Bytes

-- The signed bytes: the four parts joined by line feeds.
unfoldable pub canonical : Bytes → Bytes → Bytes → Bytes → Bytes
canonical timestamp http_method path body =
    timestamp ++ (10 ∷ (http_method ++ (10 ∷ (path ++ (10 ∷ body)))))

-- `ComputeRequestSignature`.
unfoldable pub compute_request_signature : Hmac → Bytes → Bytes → Bytes → Bytes → Bytes → Bytes
unfolding canonical
compute_request_signature hmac secret timestamp http_method path body =
    hex (hmac secret (canonical timestamp http_method path body))

-- What an authentication reads: the keyed hash, the cipher, the allowed skew, the clock, and the error
-- with which the query fails, if it does.
pub record AuthEnv : Type 0 where
  pub hmac : Hmac
  pub aead : Aead
  pub clock_skew : ℤ
  pub now : Time
  pub select_fault : Option Error

-- The end of `Authenticate`, with the secret.
abbrev pub check_signature :
    AuthEnv → SignedRequest → Merchant → Result Error Bytes → Result Error Merchant
check_signature env req m (err e) = err e
check_signature env req m (ok secret) =
    if not (
      bytes_eq
        (compute_request_signature env.hmac secret req.timestamp req.http_method req.path req.body)
        req.signature)
    then err Error.unauthenticated
    else if not (is_active m)
    then err Error.merchant_suspended
    else ok m

-- An unknown key is a failed authentication.
abbrev pub without_not_found : Error → Error
without_not_found Error.not_found = Error.unauthenticated
without_not_found e = e

-- The middle, with the merchant.
unfoldable pub check_merchant :
    AuthEnv → SignedRequest → Result Error Merchant → Result Error Merchant
unfolding decrypt compute_request_signature
check_merchant env req (err e) = err (without_not_found e)
check_merchant env req (ok m) = check_signature env req m (decrypt env.aead m.api_secret_enc)

-- The middle, with the timestamp.
unfoldable pub check_time : AuthEnv → SignedRequest → Table → Option ℤ → Result Error Merchant
unfolding unix drift check_merchant merchant_by_api_key
check_time env req t none = err Error.unauthenticated
check_time env req t (some ts) =
    if ltb_ℤ env.clock_skew (drift env.now (unix ts))
    then err Error.unauthenticated
    else check_merchant env req (merchant_by_api_key env.select_fault req.api_key t)

-- `MerchantService.Authenticate`.
unfoldable pub authenticate : AuthEnv → SignedRequest → Table → Result Error Merchant
unfolding parse_int check_time
authenticate env req t =
    if is_empty req.api_key || is_empty req.timestamp || is_empty req.signature
    then err Error.unauthenticated
    else check_time env req t (parse_int req.timestamp)

abbrev decrypted_webhook : Aead → Result Error Merchant → Result Error Bytes
decrypted_webhook aead (err e) = err e
decrypted_webhook aead (ok m) = decrypt aead m.webhook_secret_enc

-- `MerchantService.WebhookSecret`.
unfoldable pub webhook_secret : Aead → Option Error → ℕ → Table → Result Error Bytes
unfolding decrypt merchant_by_id
webhook_secret aead fault id t = decrypted_webhook aead (merchant_by_id fault id t)

-- `AdminAuth`: the token of the header, compared.
unfoldable pub admin_auth : Bytes → Bytes → Result Error (Unit {0})
admin_auth token authorization =
    if bytes_eq (trim_prefix authorization (codes "Bearer ")) token
    then ok tt
    else err Error.unauthenticated
