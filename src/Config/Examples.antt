-- ===== src/Config/Examples.antt =====
-- Configurations on concrete environments; a rate is its text, and a duration is whole nanoseconds.
use mini_payment_gateway.Prelude.{
  String, ◌≡◌, refl, Option, none, some, List, [], ◌∷◌, err, str_eq, if◌then◌else◌,
}
use mini_payment_gateway.Text.{Bytes, codes}
use mini_payment_gateway.Text.Decimal.{parse_int}
use mini_payment_gateway.Config.Keys.{KeyError, decode_key}
use mini_payment_gateway.Config.{Config, ConfigError, Environment, load, read_config}

abbrev key_text : Bytes
key_text = codes "000102030405060708090a0b0c0d0e0f101112131415161718191A1B1C1D1E1F"

abbrev get : List (String × Bytes) → String → Option Bytes
get [] key = none
get ((k, v) ∷ vars) key = if str_eq k key then some v else get vars key

abbrev environment : List (String × Bytes) → Environment Bytes
environment vars = record {
  lookup = get vars;
  parse_float = some;
  parse_duration = parse_int;
  tenth = codes "0.10";
  twentieth = codes "0.05";
}

abbrev minimal : Environment Bytes
minimal =
    environment
      (("DATABASE_URL", codes "db") ∷ ("SECRET_ENC_KEY", key_text) ∷ ("HTTP_PORT", []) ∷ [])

abbrev defaults : Config Bytes
defaults = (read_config minimal).0

-- Every error is collected, in the order of the code.
all_collected :
    load (
      environment (
        ("SECRET_ENC_KEY", codes "00ff")
        ∷ ("HTTP_PORT", codes "80a")
        ∷ ("PLATFORM_FEE_BPS", codes "10001")
        ∷ ("ACQUIRER_MIN_LATENCY", codes "900000000")
        ∷ ("WEBHOOK_WORKERS", codes "0")
        ∷ []))
    ≡ err (
        ConfigError.bad_int "HTTP_PORT"
        ∷ ConfigError.bad_key (KeyError.wrong_length 2)
        ∷ ConfigError.database_url_required
        ∷ ConfigError.fee_out_of_range
        ∷ ConfigError.latencies_crossed
        ∷ ConfigError.no_workers
        ∷ [])
unfolding load
all_collected = refl

base64_key :
    decode_key (codes " AAAAAAAAAAAAAAAAAAAAAAAAAAAAAAAAAAAAAAAAAAA= ")
    ≡ decode_key (codes "AAAAAAAAAAAAAAAAAAAAAAAAAAAAAAAAAAAAAAAAAAA")
unfolding decode_key
base64_key = refl
