-- ===== src/Merchants.antt =====
-- internal/domain/merchant.go, and internal/repository/merchant_repo.go with the constraints of
-- migrations/00001. A row of the table is the entity that `scanMerchant` builds; a missing webhook URL
-- is NULL in the table and the empty text in the entity.
pub mod Service
mod Examples
use mini_payment_gateway.Prelude.{
  ℕ, Bool, true, false, not, ◌&&◌, ◌||◌, Option, none, some, List, [], ◌∷◌, ◌++◌, map, Result, ok,
  err, Action, ltb, ◌==◌, is_some, if◌then◌else◌,
}
use mini_payment_gateway.Prelude.Lists.{find, length}
use mini_payment_gateway.Domain.Errors.{Error}
use mini_payment_gateway.Domain.Transaction.{Time}
use mini_payment_gateway.Text.{Bytes, codes, bytes_eq, is_empty, elem, has_prefix}

pub data MerchantStatus : Type 0 where
  active suspended other : MerchantStatus

pub record Merchant : Type 0 where
  pub id : ℕ
  pub name : Bytes
  pub email : Bytes
  pub api_key : Bytes
  pub api_secret_enc : Bytes
  pub webhook_url : Bytes
  pub webhook_secret_enc : Bytes
  pub status : MerchantStatus
  pub created_at : Time
  pub updated_at : Time

-- `IsActive`.
abbrev active_status : MerchantStatus → Bool
active_status MerchantStatus.active = true
active_status _ = false

abbrev pub is_active : Merchant → Bool
is_active m = active_status m.status

-- `hasHTTPScheme`.
abbrev pub has_http_scheme : Bytes → Bool
has_http_scheme s =
    ltb 7 (length s)
    && (has_prefix s (codes "http://") || ltb 8 (length s) && has_prefix s (codes "https://"))

-- `ValidateMerchantInput`. The rune '@' is one byte, which no other rune contains.
unfoldable pub validate_merchant_input : Bytes → Bytes → Bytes → Result Error (Unit {0})
validate_merchant_input name email webhook_url =
    if is_empty name
    then err (Error.invalid "name" "must not be empty")
    else if is_empty email
    then err (Error.invalid "email" "must not be empty")
    else if ltb (length email) 3 || not (elem b'@' email)
    then err (Error.invalid "email" "must be a valid email address")
    else if not (is_empty webhook_url) && not (has_http_scheme webhook_url)
    then err (Error.invalid "webhook_url" "must be an http(s) URL")
    else ok tt

-- The table `merchants`.
abbrev pub Table : Type 0
Table = List Merchant

abbrev pub has_merchant_id : ℕ → Merchant → Bool
has_merchant_id id m = m.id == id

abbrev pub has_api_key : Bytes → Merchant → Bool
has_api_key key m = bytes_eq m.api_key key

abbrev pub has_email : Bytes → Merchant → Bool
has_email email m = bytes_eq m.email email

abbrev pub exists_row : (Merchant → Bool) → Table → Bool
exists_row p t = is_some (find p t)

abbrev pub known_status : MerchantStatus → Bool
known_status MerchantStatus.other = false
known_status _ = true

-- `Create`: the CHECK of the status, the primary key, and the unique keys. `fault` is the error with
-- which the statement fails, if it does.
unfoldable pub insert_merchant : Option Error → Merchant → Action Error Table (Unit {0})
insert_merchant (some e) m t = (err e, t)
insert_merchant none m t =
    if not (known_status m.status)
    then (err Error.internal, t)
    else if exists_row (has_merchant_id m.id) t
    then (err Error.internal, t)
    else if exists_row (has_email m.email) t
    then (err Error.validation, t)
    else if exists_row (has_api_key m.api_key) t
    then (err Error.validation, t)
    else (ok tt, t ++ m ∷ [])

-- `scanMerchant` of the row that a query found.
abbrev pub scanned : Option Merchant → Result Error Merchant
scanned none = err Error.not_found
scanned (some m) = ok m

-- `GetByID` and `GetByAPIKey`.
unfoldable pub merchant_by_id : Option Error → ℕ → Table → Result Error Merchant
merchant_by_id (some e) id t = err e
merchant_by_id none id t = scanned (find (has_merchant_id id) t)

unfoldable pub merchant_by_api_key : Option Error → Bytes → Table → Result Error Merchant
merchant_by_api_key (some e) key t = err e
merchant_by_api_key none key t = scanned (find (has_api_key key) t)

-- `UpdateWebhook`.
unfoldable pub update_webhook : Option Error → ℕ → Bytes → Time → Action Error Table (Unit {0})
update_webhook (some e) id url now t = (err e, t)
update_webhook none id url now t =
    if not (exists_row (has_merchant_id id) t) then (err Error.not_found, t) else (
      ok tt,
      map (λ m. if m.id == id then record m { webhook_url = url; updated_at = now } else m) t,
    )
