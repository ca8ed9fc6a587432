-- ===== src/Merchants/Examples.antt =====
-- Merchants on concrete values, with the hash and a cipher of our own.
use mini_payment_gateway.Prelude.{
  ◌≡◌, refl, ◌↔◌, inl, Option, none, some, [], ◌∷◌, ◌++◌, ok, err, ◌>>=◌, arith,
}
use mini_payment_gateway.Prelude.Int.{pos}
use mini_payment_gateway.Domain.Errors.{Error}
use mini_payment_gateway.Clock.{unix, seconds}
use mini_payment_gateway.Text.{Bytes, codes}
use mini_payment_gateway.Text.Decimal.{parse_int}
use mini_payment_gateway.Signer.Examples.{toy_hmac}
use mini_payment_gateway.Secrets.{Aead, encrypt, new_api_key, new_api_secret, new_webhook_secret}
use mini_payment_gateway.Secrets.Cipher.{IsAead}
use mini_payment_gateway.Merchants.{
  MerchantStatus, Merchant, validate_merchant_input, insert_merchant,
}
use mini_payment_gateway.Merchants.Service.{
  CreateMerchantInput, CreatedMerchant, Draws, create_merchant, SignedRequest, AuthEnv, canonical,
  compute_request_signature, authenticate, admin_auth, webhook_secret,
}
use mini_payment_gateway.Merchants.Service.Canonical.{canonical_inj}
use mini_payment_gateway.Merchants.Service.Authentication.{Accepted, authenticate_iff}
use mini_payment_gateway.Merchants.Service.Creation.{create_merchant-authenticate}

-- A byte before the text.
abbrev toy_open : Bytes → Bytes → Option Bytes
toy_open nonce [] = none
toy_open nonce (c ∷ s) = some s

abbrev toy_aead : Aead
toy_aead = record { nonce_size = 2; seal = λ nonce text. 7 ∷ text; open_sealed = toy_open }

toy_aead-IsAead : IsAead toy_aead
toy_aead-IsAead = record {
  opens = λ nonce text size bytes. refl;
  bytes = λ nonce text bytes. (omega arith, bytes);
}

abbrev draws : Draws
draws = record {
  key_bytes = ok (171 ∷ 205 ∷ []);
  api_bytes = ok (1 ∷ 2 ∷ []);
  webhook_bytes = ok (3 ∷ []);
  api_nonce = ok (9 ∷ 8 ∷ []);
  webhook_nonce = ok (7 ∷ 6 ∷ []);
  id = 5;
  now = seconds (pos 1700000000);
  insert_fault = none;
}

abbrev shop : CreateMerchantInput
shop = record { name = codes "Shop"; email = codes "a@b.c"; webhook_url = [] }

abbrev row : Merchant
row = record {
  id = 5;
  name = codes "Shop";
  email = codes "a@b.c";
  api_key = codes "pk_test_abcd";
  api_secret_enc = codes "CQgHc2tfdGVzdF8wMTAy";
  webhook_url = [];
  webhook_secret_enc = codes "BwYHd2hzZWNfMDM=";
  status = MerchantStatus.active;
  created_at = seconds (pos 1700000000);
  updated_at = seconds (pos 1700000000);
}

abbrev created : CreatedMerchant
created = record {
  merchant = row;
  api_secret = codes "sk_test_0102";
  webhook_secret = codes "whsec_03";
}

creates : create_merchant toy_aead draws shop [] ≡ (ok created, row ∷ [])
unfolding create_merchant ◌>>=◌ validate_merchant_input new_api_key new_api_secret
    new_webhook_secret encrypt insert_merchant
creates = refl

-- A second merchant with the address is refused.
email_taken :
    (create_merchant toy_aead draws shop (record row { id = 4 } ∷ [])).0 ≡ err Error.validation
unfolding create_merchant ◌>>=◌ validate_merchant_input new_api_key new_api_secret
    new_webhook_secret encrypt insert_merchant
email_taken = refl

no_at_sign :
    validate_merchant_input (codes "Shop") (codes "abc") []
    ≡ err (Error.invalid "email" "must be a valid email address")
unfolding validate_merchant_input
no_at_sign = refl

reads_webhook_secret : webhook_secret toy_aead none 5 (row ∷ []) ≡ ok (codes "whsec_03")
unfolding webhook_secret
reads_webhook_secret = refl

abbrev auth_env : AuthEnv
auth_env = record {
  hmac = toy_hmac;
  aead = toy_aead;
  clock_skew = pos 300000000000;
  now = seconds (pos 1700000100);
  select_fault = none;
}

abbrev request : SignedRequest
request = record {
  api_key = codes "pk_test_abcd";
  timestamp = codes "1700000000";
  signature =
      compute_request_signature toy_hmac (codes "sk_test_0102") (codes "1700000000") (codes "POST")
        (codes "/api/v1/payments") (codes "{}");
  http_method = codes "POST";
  path = codes "/api/v1/payments";
  body = codes "{}";
}

create_merchant-authenticate_example : authenticate auth_env request (row ∷ []) ≡ ok row
unfolding create_merchant ◌>>=◌ validate_merchant_input new_api_key new_api_secret
    new_webhook_secret encrypt insert_merchant parse_int unix compute_request_signature
create_merchant-authenticate_example =
    create_merchant-authenticate toy_aead draws shop [] {c = created} {t' = row ∷ []} auth_env
      request (9 ∷ 8 ∷ []) (pos 1700000000) refl toy_aead-IsAead refl refl (ground arith) refl refl
      (omega arith) (omega arith) refl refl (inl (ground arith, ground arith)) refl (cc)

authenticate_iff_example :
    (authenticate auth_env request (row ∷ []) ≡ ok row) ↔ Accepted auth_env request (row ∷ []) row
authenticate_iff_example =
    authenticate_iff auth_env request (row ∷ []) row (omega arith) (omega arith)

-- A suspended merchant with the right signature is told so.
suspended_refused :
    authenticate auth_env request (record row { status = MerchantStatus.suspended } ∷ [])
    ≡ err Error.merchant_suspended
unfolding authenticate
suspended_refused = refl

unknown_key : authenticate auth_env request [] ≡ err Error.unauthenticated
unfolding authenticate
unknown_key = refl

-- A timestamp three centuries ahead gets past the window, so its request can be sent at any time.
abbrev far_request : SignedRequest
far_request = record request {
  timestamp = codes "20000000000";
  signature =
      compute_request_signature toy_hmac (codes "sk_test_0102") (codes "20000000000") (codes "POST")
        (codes "/api/v1/payments") (codes "{}");
}

far_future_accepted : authenticate auth_env far_request (row ∷ []) ≡ ok row
unfolding authenticate
far_future_accepted = refl

canonical_inj_example :
    (codes "1" ≡ codes "1")
    × (codes "GET" ≡ codes "GET")
    × (codes "/a" ≡ codes "/a")
    × (codes "b" ≡ codes "b")
canonical_inj_example =
    canonical_inj (codes "1") (codes "GET") (codes "/a") (codes "b") (codes "1") (codes "GET")
      (codes "/a") (codes "b") (ground arith) (ground arith) (ground arith) (ground arith)
      (ground arith) (ground arith) refl

-- With a line feed in a path, two requests have the same signed bytes.
line_feed_ambiguous :
    canonical (codes "1") (codes "GET") (codes "/a" ++ 10 ∷ codes "b") (codes "c")
    ≡ canonical (codes "1") (codes "GET") (codes "/a") (codes "b" ++ 10 ∷ codes "c")
unfolding canonical
line_feed_ambiguous = refl

admin_token :
    (admin_auth (codes "t0ken") (codes "Bearer t0ken") ≡ ok tt)
    × (admin_auth (codes "t0ken") (codes "Bearer token") ≡ err Error.unauthenticated)
unfolding admin_auth
admin_token = (refl, refl)
