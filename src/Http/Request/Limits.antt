-- ===== src/Http/Request/Limits.antt =====
-- The page size of a request.
use mini_payment_gateway.Prelude.{ℕ, ◌≤◌, ◌≡◌, Bool-cases, inl, inr, Option, none, some, ok, arith}
use mini_payment_gateway.Prelude.Int.{ℤ, pos, negsuc}
use mini_payment_gateway.Text.{Bytes, is_empty}
use mini_payment_gateway.Text.Decimal.{parse_int}
use mini_payment_gateway.Http.Request.{query_limit, clamped}

clamped_bounds :
    (max : ℕ) (o : Option ℤ) {n : ℕ} → 1 ≤ max → clamped max o ≡ ok n → (1 ≤ n) × (n ≤ max)
clamped_bounds max none h k = cc
clamped_bounds max (some (pos a)) h k = ground arith
clamped_bounds max (some (negsuc a)) h k = ground arith

-- A page size that is accepted is at least one and at most the maximum.
pub query_limit_bounds :
    (raw : Bytes) (def max : ℕ) {n : ℕ}
    → 1 ≤ def
    → def ≤ max
    → query_limit raw def max ≡ ok n
    → (1 ≤ n) × (n ≤ max)
unfolding query_limit
query_limit_bounds raw def max {n} h k e = elim (Bool-cases (is_empty raw)) [
  | inl p ↦ let same = rw p at e in ground arith
  | inr p ↦ clamped_bounds max (parse_int raw) {n = n} (omega arith) (rw p at e)
]
