-- ===== src/Config.antt =====
-- internal/config: the configuration that a process reads from its environment.
pub mod Keys
pub mod Checks
mod Examples
use mini_payment_gateway.Prelude.{
  ℕ, ◌*◌, String, Bool, true, false, not, ◌&&◌, ◌||◌, Option, none, some, List, [], ◌∷◌, ◌++◌,
  Result, ok, err, if◌then◌else◌,
}
use mini_payment_gateway.Prelude.Int.{ℤ, pos, ltb_ℤ}
use mini_payment_gateway.Text.{Bytes, codes, bytes_eq, is_empty}
use mini_payment_gateway.Text.Decimal.{parse_int}
use mini_payment_gateway.Config.Keys.{KeyError, decode_key}

pub data ConfigError : Type 0 where
  bad_int bad_float bad_duration : String → ConfigError
  bad_key : KeyError → ConfigError
  database_url_required fee_out_of_range latencies_crossed no_workers : ConfigError

pub record AcquirerConfig (F : Type 0) : Type 0 where
  pub decline_rate : F
  pub timeout_rate : F
  pub timeout : ℤ
  pub min_latency : ℤ
  pub max_latency : ℤ
  pub breaker_threshold : ℤ
  pub breaker_cooldown : ℤ

pub record WebhookConfig : Type 0 where
  pub workers : ℤ
  pub max_attempts : ℤ
  pub poll_interval : ℤ
  pub request_timeout : ℤ
  pub shutdown_timeout : ℤ

pub record LimitsConfig : Type 0 where
  pub idempotency_ttl : ℤ
  pub auth_max_clock_skew : ℤ
  pub rate_limit_rpm : ℤ

pub record Config (F : Type 0) : Type 0 where
  pub app_env : Bytes
  pub http_port : ℤ
  pub log_level : Bytes
  pub database_url : Bytes
  pub redis_url : Bytes
  pub run_migrations : Bool
  pub admin_token : Bytes
  pub secret_enc_key : Bytes
  pub platform_fee_bps : ℤ
  pub acquirer : AcquirerConfig F
  pub webhook : WebhookConfig
  pub limits : LimitsConfig
  pub report_dir : Bytes

-- The process's environment, and how the package strconv reads a floating point number and the package
-- time a duration; with the two default rates.
pub record Environment (F : Type 0) : Type 0 where
  pub lookup : String → Option Bytes
  pub parse_float : Bytes → Option F
  pub parse_duration : Bytes → Option ℤ
  pub tenth : F
  pub twentieth : F

-- A variable that is set, and not to the empty text.
abbrev non_empty : Option Bytes → Option Bytes
non_empty none = none
non_empty (some v) = if is_empty v then none else some v

-- A value with what is to be collected.
abbrev Read : Type 0 → Type 0
Read A = A × List ConfigError

-- The default where the variable is not set, and where it cannot be read, then with an error.
abbrev read_with : {A : Type 0} → (Bytes → Option A) → ConfigError → A → Option Bytes → Read A
read_with parse e def none = (def, [])
read_with parse e def (some raw) = elim (parse raw) [ none ↦ (def, e ∷ []) | some v ↦ (v, []) ]

-- `strconv.ParseBool`.
abbrev parse_bool : Bytes → Option Bool
parse_bool s =
    if bytes_eq s (codes "1")
      || bytes_eq s (codes "t")
      || bytes_eq s (codes "T")
      || bytes_eq s (codes "true")
      || bytes_eq s (codes "TRUE")
      || bytes_eq s (codes "True")
    then some true
    else if bytes_eq s (codes "0")
        || bytes_eq s (codes "f")
        || bytes_eq s (codes "F")
        || bytes_eq s (codes "false")
        || bytes_eq s (codes "FALSE")
        || bytes_eq s (codes "False")
    then some false
    else none

abbrev or_default : {A : Type 0} → A → Option A → A
or_default def none = def
or_default def (some v) = v

module _ {F : Type 0} (e : Environment F) where
  abbrev env_text : String → String → Bytes
  env_text key def = or_default (codes def) (non_empty (e.lookup key))

  abbrev env_int : String → ℤ → Read ℤ
  env_int key def = read_with parse_int (ConfigError.bad_int key) def (non_empty (e.lookup key))

  abbrev env_float : String → F → Read F
  env_float key def =
      read_with e.parse_float (ConfigError.bad_float key) def (non_empty (e.lookup key))

  abbrev env_bool : String → Bool → Bool
  env_bool key def = elim (non_empty (e.lookup key)) [
    | none ↦ def
    | some raw ↦ or_default def (parse_bool raw)
  ]

  abbrev env_duration : String → ℤ → Read ℤ
  env_duration key def =
      read_with e.parse_duration (ConfigError.bad_duration key) def (non_empty (e.lookup key))

-- Milliseconds and seconds in nanoseconds.
abbrev milliseconds : ℕ → ℤ
milliseconds n = pos (n * 1000000)

abbrev seconds : ℕ → ℤ
seconds n = pos (n * 1000000000)

-- What is read of the key: no bytes beside an error.
abbrev key_read : Result KeyError Bytes → Read Bytes
key_read (err x) = ([], ConfigError.bad_key x ∷ [])
key_read (ok key) = (key, [])

abbrev when : Bool → ConfigError → List ConfigError
when true x = x ∷ []
when false x = []

-- The checks of the values that were read.
unfoldable pub checks : {F : Type 0} → Config F → List ConfigError
checks cfg =
    when (is_empty cfg.database_url) ConfigError.database_url_required
    ++ (when (ltb_ℤ cfg.platform_fee_bps (pos 0) || ltb_ℤ (pos 10000) cfg.platform_fee_bps)
          ConfigError.fee_out_of_range
        ++ (when (ltb_ℤ cfg.acquirer.max_latency cfg.acquirer.min_latency)
              ConfigError.latencies_crossed
            ++ when (ltb_ℤ cfg.webhook.workers (pos 1)) ConfigError.no_workers))

abbrev finish : {F : Type 0} → Config F → List ConfigError → Result (List ConfigError) (Config F)
finish cfg [] = ok cfg
finish cfg (x ∷ xs) = err (x ∷ xs)

-- The values that were read, with the errors of the reading in the order of the code.
unfoldable pub read_config : {F : Type 0} → Environment F → Config F × List ConfigError
unfolding parse_int decode_key
read_config e =
    let (port, e1) = env_int e "HTTP_PORT" (pos 8080) in
    let (fee_bps, e2) = env_int e "PLATFORM_FEE_BPS" (pos 200) in
    let (key, e3) = key_read (decode_key (env_text e "SECRET_ENC_KEY" "")) in
    let (decline_rate, e4) = env_float e "ACQUIRER_DECLINE_RATE" e.tenth in
    let (timeout_rate, e5) = env_float e "ACQUIRER_TIMEOUT_RATE" e.twentieth in
    let (acq_timeout, e6) = env_duration e "ACQUIRER_TIMEOUT" (seconds 3) in
    let (min_lat, e7) = env_duration e "ACQUIRER_MIN_LATENCY" (milliseconds 50) in
    let (max_lat, e8) = env_duration e "ACQUIRER_MAX_LATENCY" (milliseconds 800) in
    let (threshold, e9) = env_int e "ACQUIRER_BREAKER_THRESHOLD" (pos 5) in
    let (cooldown, e10) = env_duration e "ACQUIRER_BREAKER_COOLDOWN" (seconds 30) in
    let (workers, e11) = env_int e "WEBHOOK_WORKERS" (pos 5) in
    let (max_attempts, e12) = env_int e "WEBHOOK_MAX_ATTEMPTS" (pos 6) in
    let (poll, e13) = env_duration e "WEBHOOK_POLL_INTERVAL" (seconds 2) in
    let (wh_timeout, e14) = env_duration e "WEBHOOK_TIMEOUT" (seconds 10) in
    let (shutdown, e15) = env_duration e "WEBHOOK_SHUTDOWN_TIMEOUT" (seconds 30) in
    let (ttl, e16) = env_duration e "IDEMPOTENCY_TTL" (seconds 86400) in
    let (skew, e17) = env_duration e "AUTH_MAX_CLOCK_SKEW" (seconds 300) in
    let (rpm, e18) = env_int e "RATE_LIMIT_RPM" (pos 120) in
    (
      record {
        app_env = env_text e "APP_ENV" "development";
        http_port = port;
        log_level = env_text e "LOG_LEVEL" "info";
        database_url = env_text e "DATABASE_URL" "";
        redis_url = env_text e "REDIS_URL" "redis://localhost:6379/0";
        run_migrations = env_bool e "RUN_MIGRATIONS" false;
        admin_token = env_text e "ADMIN_TOKEN" "";
        secret_enc_key = key;
        platform_fee_bps = fee_bps;
        acquirer = record {
          decline_rate = decline_rate;
          timeout_rate = timeout_rate;
          timeout = acq_timeout;
          min_latency = min_lat;
          max_latency = max_lat;
          breaker_threshold = threshold;
          breaker_cooldown = cooldown;
        };
        webhook = record {
          workers = workers;
          max_attempts = max_attempts;
          poll_interval = poll;
          request_timeout = wh_timeout;
          shutdown_timeout = shutdown;
        };
        limits = record { idempotency_ttl = ttl; auth_max_clock_skew = skew; rate_limit_rpm = rpm };
        report_dir = env_text e "REPORT_DIR" "reports";
      },
      e1
          ++ (e2
              ++ (e3
                  ++ (e4
                      ++ (e5
                          ++ (e6
                              ++ (e7
                                  ++ (e8
                                      ++ (e9
                                          ++ (e10
                                              ++ (e11
                                                  ++ (e12
                                                      ++ (e13
                                                          ++ (e14
                                                            ++ (e15
                                                            ++ (e16 ++ (e17 ++ e18)))))))))))))))),
    )

-- `Load`.
unfoldable pub load : {F : Type 0} → Environment F → Result (List ConfigError) (Config F)
unfolding read_config checks
load e = let (cfg, errs) = read_config e in finish cfg (errs ++ checks cfg)

-- `RequireAdminToken`.
pub require_admin_token : {F : Type 0} → Config F → Bool
require_admin_token cfg = not (is_empty cfg.admin_token)

-- `IsProduction`.
pub is_production : {F : Type 0} → Config F → Bool
is_production cfg = bytes_eq cfg.app_env (codes "production")
