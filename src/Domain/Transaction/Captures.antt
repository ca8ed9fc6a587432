-- ===== src/Domain/Transaction/Captures.antt =====
-- `Transaction.Capture` on a well-formed transaction.
use mini_payment_gateway.Prelude.{◌≡◌, ◌⊎◌, ◌↔◌, true, false, is_some, ok, arith}
use mini_payment_gateway.Prelude.Int.{pos, ◌≤ℤ◌, ◌+ℤ◌, +ℤ_parts, -ℤ_parts}
use mini_payment_gateway.Money.{Amount}
use mini_payment_gateway.Domain.Transaction.Validity.{
  IsValid, remaining_capturable_exact, captured_sum,
}
use mini_payment_gateway.Domain.Transaction.{
  Status, Transaction, Time, authorization_expired, capture,
}

-- What `capture` asks for, in terms of whole numbers.
abbrev pub Capturable : Transaction → Amount → Time → Type 0
Capturable t a now =
    (pos 1 ≤ℤ a)
    × ((t.status ≡ Status.authorized) ⊎ (t.status ≡ Status.captured))
    × (authorization_expired now t ≡ false)
    × (t.captured_amount +ℤ a ≤ℤ t.amount)

-- What `capture` changes.
abbrev pub Captured : Transaction → Amount → Transaction → Type 0
Captured t a c =
    (c.status ≡ Status.captured)
    × (c.captured_amount ≡ t.captured_amount +ℤ a)
    × (c.refunded_amount ≡ t.refunded_amount)
    × (c.amount ≡ t.amount)
    × (c.id ≡ t.id)
    × (c.merchant_id ≡ t.merchant_id)
    × (c.currency ≡ t.currency)
    × (c.version ≡ t.version)
    × (is_some c.captured_at ≡ true)

module _ {t : Transaction} (valid : IsValid t) where
  capture_needs : (a : Amount) (now : Time) → (capture a now t).0 ≡ ok tt → Capturable t a now
  unfolding capture
  capture_needs a now h = ground (
    arith,
    remaining_capturable_exact valid,
    -ℤ_parts t.amount t.captured_amount,
    +ℤ_parts t.captured_amount a,
  )

  capture_accepts : (a : Amount) (now : Time) → Capturable t a now → (capture a now t).0 ≡ ok tt
  unfolding capture
  capture_accepts a now h = ground (
    arith,
    remaining_capturable_exact valid,
    -ℤ_parts t.amount t.captured_amount,
    +ℤ_parts t.captured_amount a,
  )

  -- On a well-formed transaction Capture succeeds exactly when the amount is positive, the status
  -- is authorized or captured, the authorization has not expired, and what was captured before and
  -- the amount do not exceed the authorized amount together.
  pub capture_iff : (a : Amount) (now : Time) → ((capture a now t).0 ≡ ok tt) ↔ Capturable t a now
  capture_iff a now = (capture_needs a now, capture_accepts a now)

  -- On a well-formed transaction a Capture that succeeds ends in captured, has a capture time, and
  -- adds exactly its amount to what was captured, with no wrap-around; the other amounts, the
  -- version and the owner stay.
  pub capture-Captured :
      (a : Amount) (now : Time) → (capture a now t).0 ≡ ok tt → Captured t a (capture a now t).1
  unfolding capture
  capture-Captured a now h = ground (arith, remaining_capturable_exact valid, captured_sum valid a)

  pub capture-IsValid :
      (a : Amount) (now : Time) → (capture a now t).0 ≡ ok tt → IsValid (capture a now t).1
  capture-IsValid a now h =
      ground (arith, capture_needs a now h, capture-Captured a now h, +ℤ_parts t.captured_amount a)
