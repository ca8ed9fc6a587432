-- ===== src/Merchants/Service/Creation.antt =====
-- A merchant that was created can sign requests.
use mini_payment_gateway.Prelude.{
  ◌≡◌, ◌≢◌, refl, ap, subst, subst₂, Bool, true, false, not, Option, none, some, is_some, Result,
  ok, err, List, [], ◌∷◌, ◌++◌, >>=_elim, if◌then◌else◌, arith, from_result_elim, pure_done,
}
use mini_payment_gateway.Prelude.Int.{ℤ, pos, ◌≤ℤ◌, ◌<ℤ◌}
use mini_payment_gateway.Prelude.Int64.{max_int64}
use mini_payment_gateway.Prelude.Lists.{find, length, All}
use mini_payment_gateway.Domain.Errors.{Error}
use mini_payment_gateway.Clock.{unix, Near}
use mini_payment_gateway.Text.{Bytes, bytes_eq_refl, is_empty, not_empty}
use mini_payment_gateway.Text.Base64.{IsByte}
use mini_payment_gateway.Text.Decimal.{parse_int, parse_int_nil}
use mini_payment_gateway.Secrets.{
  Aead, encrypt, new_api_key, new_api_secret, new_webhook_secret, random_string,
}
use mini_payment_gateway.Secrets.Cipher.{IsAead, decrypt-encrypt, new_api_secret-IsByte}
use mini_payment_gateway.Merchants.{
  Merchant, Table, is_active, has_api_key, exists_row, validate_merchant_input, insert_merchant,
  merchant_by_api_key, known_status, has_merchant_id, has_email, scanned,
}
use mini_payment_gateway.Merchants.Service.{
  CreateMerchantInput, CreatedMerchant, Draws, create_merchant, new_merchant, SignedRequest,
  AuthEnv, compute_request_signature, authenticate,
}
use mini_payment_gateway.Merchants.Service.Authentication.{authenticate_iff}

-- A guard of a statement that did not stop it.
guard_stopped :
    {A : Type 0} (b : Bool) (e : Error) (t : Table) {p : Result Error A × Table} {a : A}
    {t' : Table}
    → (if b then (err e, t) else p) ≡ (ok a, t')
    → (b ≡ false) × (p ≡ (ok a, t'))
guard_stopped true e t h = cc
guard_stopped false e t h = (refl, h)

find-append :
    {A : Type 0} (p : A → Bool) (xs : List A) (x : A)
    → is_some (find p xs) ≡ false
    → p x ≡ true
    → find p (xs ++ x ∷ []) ≡ some x
find-append p [] x h k = rw k refl
find-append p (y ∷ xs) x h k = ground (arith, find-append p xs x)

-- A row that was inserted is the row with its key.
insert_merchant-find :
    (fault : Option Error) (m : Merchant) (t : Table) {t' : Table}
    → insert_merchant fault m t ≡ (ok tt, t')
    → merchant_by_api_key none m.api_key t' ≡ ok m
unfolding insert_merchant merchant_by_api_key
insert_merchant-find (some e) m t h = cc
insert_merchant-find none m t h =
    let (_, h1) = guard_stopped (not (known_status m.status)) _ _ h in
    let (_, h2) = guard_stopped (exists_row (has_merchant_id m.id) t) _ _ h1 in
    let (_, h3) = guard_stopped (exists_row (has_email m.email) t) _ _ h2 in
    let (fresh, h4) = guard_stopped (exists_row (has_api_key m.api_key) t) _ _ h3 in
    subst (λ x. scanned (find (has_api_key m.api_key) x) ≡ ok m) (ap (λ p. p.1) h4)
      (ap scanned (find-append (has_api_key m.api_key) t m fresh (bytes_eq_refl m.api_key)))

-- What a creation that succeeds has returned, and that its row is in the table.
pub record Created (aead : Aead) (d : Draws) (c : CreatedMerchant) (t : Table) : Type 0 where
  pub sealed : encrypt d.api_nonce aead c.api_secret ≡ ok c.merchant.api_secret_enc
  pub found : merchant_by_api_key none c.merchant.api_key t ≡ ok c.merchant
  pub active : is_active c.merchant ≡ true
  pub secret_bytes : All IsByte c.api_secret
  pub key : is_empty c.merchant.api_key ≡ false

-- The merchant that is returned for the drawn secrets.
abbrev returned :
    Draws → CreateMerchantInput → Bytes → Bytes → Bytes → Bytes → Bytes → CreatedMerchant
returned d input key secret webhook sealed sealed_webhook = record {
  merchant = new_merchant d input key sealed sealed_webhook;
  api_secret = secret;
  webhook_secret = webhook;
}

new_api_key-not_empty :
    (r : Result Error Bytes) {key : Bytes} → new_api_key r ≡ ok key → is_empty key ≡ false
unfolding new_api_key random_string
new_api_key-not_empty (err e) h = cc
new_api_key-not_empty (ok buf) h = cc

returned-Created :
    (aead : Aead) (d : Draws) (input : CreateMerchantInput) (t : Table)
    (key secret webhook sealed sealed_webhook : Bytes) {t' : Table}
    → new_api_key d.key_bytes ≡ ok key
    → new_api_secret d.api_bytes ≡ ok secret
    → encrypt d.api_nonce aead secret ≡ ok sealed
    → insert_merchant d.insert_fault (new_merchant d input key sealed sealed_webhook) t
      ≡ (ok tt, t')
    → Created aead d (returned d input key secret webhook sealed sealed_webhook) t'
returned-Created aead d input t key secret webhook sealed sealed_webhook {t'} drawn drawn_secret e
      inserted =
    record {
      sealed = e;
      found =
          insert_merchant-find d.insert_fault (new_merchant d input key sealed sealed_webhook) t
            inserted;
      active = refl;
      secret_bytes = new_api_secret-IsByte d.api_bytes drawn_secret;
      key = new_api_key-not_empty d.key_bytes drawn;
    }

timestamp_not_empty : (s : Bytes) {ts : ℤ} → parse_int s ≡ some ts → is_empty s ≡ false
timestamp_not_empty [] h = cc parse_int_nil
timestamp_not_empty (b ∷ s) h = refl

create_merchant-Created :
    (aead : Aead) (d : Draws) (input : CreateMerchantInput) (t : Table) {c : CreatedMerchant}
    {t' : Table}
    → create_merchant aead d input t ≡ (ok c, t')
    → Created aead d c t'
unfolding create_merchant
create_merchant-Created aead d input t {c} {t'} h =
    from_result_elim (validate_merchant_input input.name input.email input.webhook_url) _ t h
      λ _ e1 h1. from_result_elim (new_api_key d.key_bytes) _ t h1 λ key e2 h2.
        from_result_elim (new_api_secret d.api_bytes) _ t h2 λ secret e3 h3.
          from_result_elim (new_webhook_secret d.webhook_bytes) _ t h3 λ webhook e4 h4.
            from_result_elim (encrypt d.api_nonce aead secret) _ t h4 λ sealed e5 h5.
              from_result_elim (encrypt d.webhook_nonce aead webhook) _ t h5 λ sealed2 e6 h6.
                >>=_elim (insert_merchant d.insert_fault (new_merchant d input key sealed sealed2))
                  _ t h6
                  λ u t1 e7 h7.
                    let (same, last) =
                      pure_done (returned d input key secret webhook sealed sealed2) t1 h7 in
                    subst₂ (Created aead d) same last (
                      returned-Created aead d input t key secret webhook sealed sealed2 e2 e3 e5 e7)

-- Right after a creation that succeeded, a request with the returned key, a timestamp near the
-- clock, and the signature, not empty, under the returned secret is authenticated as the new
-- merchant, where AES-GCM opens what it sealed, the nonce has its size, the skew is from zero to
-- below the largest duration, and the query does not fail.
pub create_merchant-authenticate :
    (aead : Aead) (d : Draws) (input : CreateMerchantInput) (t : Table) {c : CreatedMerchant}
    {t' : Table} (env : AuthEnv) (req : SignedRequest) (nonce : Bytes) (ts : ℤ)
    → create_merchant aead d input t ≡ (ok c, t')
    → IsAead aead
    → d.api_nonce ≡ ok nonce
    → length nonce ≡ aead.nonce_size
    → All IsByte nonce
    → env.aead ≡ aead
    → env.select_fault ≡ none
    → pos 0 ≤ℤ env.clock_skew
    → env.clock_skew <ℤ max_int64
    → req.api_key ≡ c.merchant.api_key
    → parse_int req.timestamp ≡ some ts
    → Near env.clock_skew env.now (unix ts)
    → req.signature
      ≡ compute_request_signature env.hmac c.api_secret req.timestamp req.http_method req.path
          req.body
    → req.signature ≢ []
    → authenticate env req t' ≡ ok c.merchant
create_merchant-authenticate aead d input t {c} {t'} env req nonce ts created law drawn size bytes
      same_aead no_fault p q same_key read near signed some_signature =
    let done = create_merchant-Created aead d input t created in
    (authenticate_iff env req t' c.merchant p q).1 (record {
      has_key = rw same_key done.key;
      has_timestamp = timestamp_not_empty req.timestamp read;
      has_signature = not_empty req.signature some_signature;
      seconds = ts;
      read_time = read;
      near = near;
      row = rw (no_fault, same_key) done.found;
      secret = c.api_secret;
      opened = rw same_aead (
          decrypt-encrypt aead nonce c.api_secret law size bytes done.secret_bytes
            (rw drawn at done.sealed));
      signed = signed;
      active = done.active;
    })
