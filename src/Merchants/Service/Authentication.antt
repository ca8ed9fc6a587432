-- ===== src/Merchants/Service/Authentication.antt =====
-- When a signed request is accepted.
use mini_payment_gateway.Prelude.{
  ◌≡◌, refl, sym, ap, subst, ◌↔◌, not, guard_passed, not-false, ◌||◌, true, false, Option, none,
  some, Result, ok, err, arith,
}
use mini_payment_gateway.Prelude.Int.{ℤ, pos, ◌≤ℤ◌, ◌<ℤ◌, ltb_ℤ}
use mini_payment_gateway.Prelude.Int64.{max_int64}
use mini_payment_gateway.Domain.Errors.{Error}
use mini_payment_gateway.Clock.{unix, drift, Near, drift_iff}
use mini_payment_gateway.Text.{Bytes, bytes_eq_refl, bytes_eq→eq, is_empty}
use mini_payment_gateway.Text.Decimal.{parse_int}
use mini_payment_gateway.Secrets.{decrypt}
use mini_payment_gateway.Merchants.{Merchant, Table, is_active, merchant_by_api_key}
use mini_payment_gateway.Merchants.Service.{
  SignedRequest, AuthEnv, compute_request_signature, check_signature, check_merchant, check_time,
  authenticate,
}

-- What makes a request the merchant's: all three headers, a timestamp near the clock, a row with the
-- key, the signature under the row's secret, and an active account.
pub record Accepted (env : AuthEnv) (req : SignedRequest) (t : Table) (m : Merchant) : Type 0 where
  pub has_key : is_empty req.api_key ≡ false
  pub has_timestamp : is_empty req.timestamp ≡ false
  pub has_signature : is_empty req.signature ≡ false
  pub seconds : ℤ
  pub read_time : parse_int req.timestamp ≡ some seconds
  pub near : Near env.clock_skew env.now (unix seconds)
  pub row : merchant_by_api_key env.select_fault req.api_key t ≡ ok m
  pub secret : Bytes
  pub opened : decrypt env.aead m.api_secret_enc ≡ ok secret
  pub signed :
      req.signature
      ≡ compute_request_signature env.hmac secret req.timestamp req.http_method req.path req.body
  pub active : is_active m ≡ true

module _ (env : AuthEnv) (req : SignedRequest) (t : Table) (m : Merchant)
    (p : pos 0 ≤ℤ env.clock_skew) (q : env.clock_skew <ℤ max_int64) where
  accepts : Accepted env req t m → authenticate env req t ≡ ok m
  unfolding authenticate check_time check_merchant
  accepts a =
      rw
        (
          a.has_key,
          a.has_timestamp,
          a.has_signature,
          a.read_time,
          (drift_iff env.clock_skew env.now (unix a.seconds) p q).1 a.near,
          a.row,
          a.opened,
          a.signed,
          a.active,
          bytes_eq_refl (
              compute_request_signature env.hmac a.secret req.timestamp req.http_method req.path
                req.body),
        )
        refl

  signature_checked :
      (n : Merchant) (r : Result Error Bytes)
      → check_signature env req n r ≡ ok m
      → (secret : Bytes) × (r ≡ ok secret)
        × (compute_request_signature env.hmac secret req.timestamp req.http_method req.path req.body
            ≡ req.signature)
        × (is_active n ≡ true)
        × (n ≡ m)
  signature_checked n (err e) h = cc
  signature_checked n (ok secret) h =
      let (same, rest) = guard_passed _ _ _ h in
      let (active, found) = guard_passed (not (is_active n)) _ (ok n) rest in
      (secret, refl, bytes_eq→eq _ _ (not-false same), not-false active, cc)

  merchant_checked :
      (r : Result Error Merchant)
      → check_merchant env req r ≡ ok m
      → (r ≡ ok m) × (check_signature env req m (decrypt env.aead m.api_secret_enc) ≡ ok m)
  unfolding check_merchant
  merchant_checked (err e) h = cc
  merchant_checked (ok n) h =
      let (secret, e1, e2, e3, same) = signature_checked n (decrypt env.aead n.api_secret_enc) h in
      (
        ap ok same,
        subst (λ x. check_signature env req x (decrypt env.aead x.api_secret_enc) ≡ ok m) same h,
      )

  time_checked :
      (o : Option ℤ)
      → check_time env req t o ≡ ok m
      → (ts : ℤ) × (o ≡ some ts)
        × (ltb_ℤ env.clock_skew (drift env.now (unix ts)) ≡ false)
        × (check_merchant env req (merchant_by_api_key env.select_fault req.api_key t) ≡ ok m)
  unfolding check_time
  time_checked none h = cc
  time_checked (some ts) h = (ts, refl, ground arith, ground arith)

  accepted : authenticate env req t ≡ ok m → Accepted env req t m
  unfolding authenticate
  accepted h =
      let (present, rest) =
        guard_passed (is_empty req.api_key || is_empty req.timestamp || is_empty req.signature) _
          (check_time env req t (parse_int req.timestamp)) h in
      let (ts, read, near, checked) = time_checked (parse_int req.timestamp) rest in
      let (row, signed) =
        merchant_checked (merchant_by_api_key env.select_fault req.api_key t) checked in
      let (secret, opened, same, active, _) =
        signature_checked m (decrypt env.aead m.api_secret_enc) signed in
      record {
        has_key = ground arith;
        has_timestamp = ground arith;
        has_signature = ground arith;
        seconds = ts;
        read_time = read;
        near = (drift_iff env.clock_skew env.now (unix ts) p q).0 near;
        row = row;
        secret = secret;
        opened = opened;
        signed = sym same;
        active = active;
      }

  -- For a clock skew from zero to below the largest duration, Authenticate returns a merchant
  -- exactly when the three headers are there, the timestamp is an int64 in decimal that is near the
  -- clock, the row with the key is that merchant, the signature is the one of the timestamp, the
  -- method, the path and the body under the row's decrypted secret, and the merchant is active;
  -- near is within the skew, or so far ahead that the difference is the smallest duration.
  pub authenticate_iff : (authenticate env req t ≡ ok m) ↔ Accepted env req t m
  authenticate_iff = (accepted, accepts)
