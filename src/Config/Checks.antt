-- ===== src/Config/Checks.antt =====
-- What holds of a configuration that was loaded.
use mini_payment_gateway.Prelude.{
  ℕ, ◌≡◌, ◌*◌, ◌/◌, ◌≤◌, ◌<◌, refl, subst, Bool, true, false, ◌||◌, List, [], ◌∷◌, ◌++◌, Result, ok,
  err, arith,
}
use mini_payment_gateway.Prelude.Int.{ℤ, pos, negsuc, pos_part, ◌≤ℤ◌, ltb_ℤ}
use native.Mathlib.Nat.{mul-le-mul_left}
use mini_payment_gateway.Prelude.Int64.{half_range}
use mini_payment_gateway.Money.{fee}
use mini_payment_gateway.Money.Fees.{fee_exact}
use mini_payment_gateway.Prelude.Lists.{length}
use mini_payment_gateway.Text.{Bytes, is_empty}
use mini_payment_gateway.Config.Keys.{KeyError, decode_key, decode_key-length}
use mini_payment_gateway.Config.{
  Config, ConfigError, Environment, env_text, key_read, when, checks, finish, read_config, load,
}

-- What the code may rely on of a configuration.
pub record IsSane {F : Type 0} (cfg : Config F) : Type 0 where
  pub database : is_empty cfg.database_url ≡ false
  pub fee_least : pos 0 ≤ℤ cfg.platform_fee_bps
  pub fee_most : cfg.platform_fee_bps ≤ℤ pos 10000
  pub latencies : cfg.acquirer.min_latency ≤ℤ cfg.acquirer.max_latency
  pub workers : pos 1 ≤ℤ cfg.webhook.workers
  pub key : length cfg.secret_enc_key ≡ 32

module _ {A : Type 0} where
  append_nil_left : (xs ys : List A) → xs ++ ys ≡ [] → xs ≡ []
  append_nil_left [] ys h = refl
  append_nil_left (x ∷ xs) ys h = cc

  append_nil_right : (xs ys : List A) → xs ++ ys ≡ [] → ys ≡ []
  append_nil_right [] ys h = h
  append_nil_right (x ∷ xs) ys h = cc

when_nil : (b : Bool) (x : ConfigError) → when b x ≡ [] → b ≡ false
when_nil true x h = cc
when_nil false x h = refl

key_read_nil : (r : Result KeyError Bytes) → (key_read r).1 ≡ [] → r ≡ ok (key_read r).0
key_read_nil (err x) h = cc
key_read_nil (ok key) h = refl

finish_ok :
    {F : Type 0} (cfg : Config F) (xs : List ConfigError) {c : Config F}
    → finish cfg xs ≡ ok c
    → (cfg ≡ c) × (xs ≡ [])
finish_ok cfg [] h = (cc, refl)
finish_ok cfg (x ∷ xs) h = cc

-- The checks that found nothing.
checks-IsSane :
    {F : Type 0} (cfg : Config F) → checks cfg ≡ [] → length cfg.secret_enc_key ≡ 32 → IsSane cfg
unfolding checks
checks-IsSane cfg h key =
    let database = when_nil (is_empty cfg.database_url) _ (append_nil_left _ _ h) in
    let h1 = append_nil_right _ _ h in
    let rates =
      when_nil (ltb_ℤ cfg.platform_fee_bps (pos 0) || ltb_ℤ (pos 10000) cfg.platform_fee_bps) _
        (append_nil_left _ _ h1) in
    let h2 = append_nil_right _ _ h1 in
    let latencies =
      when_nil (ltb_ℤ cfg.acquirer.max_latency cfg.acquirer.min_latency) _
        (append_nil_left _ _ h2) in
    let workers = when_nil (ltb_ℤ cfg.webhook.workers (pos 1)) _ (append_nil_right _ _ h2) in
    record {
      database = database;
      fee_least = ground arith;
      fee_most = ground arith;
      latencies = ground arith;
      workers = ground arith;
      key = key;
    }

-- A rate of at most ten thousand takes at most the amount.
quotient_bound : (a b : ℕ) → b ≤ 10000 → a * b / 10000 ≤ a
quotient_bound a b h = let product : a * b ≤ a * 10000 = mul-le-mul_left a h in omega arith

fee_bounds :
    (a : ℕ) (bps : ℤ)
    → pos 0 ≤ℤ bps
    → bps ≤ℤ pos 10000
    → a * pos_part bps < half_range
    → (pos 0 ≤ℤ fee (pos a) bps) × (fee (pos a) bps ≤ℤ pos a)
fee_bounds a (pos b) p q fits =
    let most = quotient_bound a b (omega arith) in
    rw (fee_exact a b fits) (omega arith, omega arith)
fee_bounds a (negsuc b) p q fits = absurd (omega arith)

module _ {F : Type 0} (e : Environment F) where
  read_config-key : (read_config e).1 ≡ [] → length (read_config e).0.secret_enc_key ≡ 32
  unfolding read_config
  read_config-key h =
      let after_port = append_nil_right _ _ h in
      let after_fee = append_nil_right _ _ after_port in
      let key_part =
        append_nil_left (key_read (decode_key (env_text e "SECRET_ENC_KEY" ""))).1 _ after_fee in
      decode_key-length (env_text e "SECRET_ENC_KEY" "") (key_read_nil _ key_part)

  -- A configuration that Load accepts has a database URL, a fee rate from 0 to 10000, latencies in
  -- order, at least one worker, and a key of 32 bytes.
  pub load-IsSane : {cfg : Config F} → load e ≡ ok cfg → IsSane cfg
  unfolding load
  load-IsSane {cfg} h =
      let (same, none_found) =
        finish_ok (read_config e).0 ((read_config e).1 ++ checks (read_config e).0) {c = cfg} h in
      let nothing_read = append_nil_left (read_config e).1 (checks (read_config e).0) none_found in
      let nothing_checked =
        append_nil_right (read_config e).1 (checks (read_config e).0) none_found in
      subst IsSane same
        (checks-IsSane (read_config e).0 nothing_checked (read_config-key nothing_read))

  -- Under a configuration that was loaded the platform fee of an amount lies between zero and the
  -- amount, if the product of the amount and the rate fits an int64.
  pub load-fee :
      {cfg : Config F} (a : ℕ)
      → load e ≡ ok cfg
      → a * pos_part cfg.platform_fee_bps < half_range
      → (pos 0 ≤ℤ fee (pos a) cfg.platform_fee_bps) × (fee (pos a) cfg.platform_fee_bps ≤ℤ pos a)
  load-fee {cfg} a h fits =
      let sane = load-IsSane {cfg = cfg} h in
      fee_bounds a cfg.platform_fee_bps sane.fee_least sane.fee_most fits
