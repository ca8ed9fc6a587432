-- ===== src/Domain/Transaction/Refunds.antt =====
-- `Transaction.Refund` on a well-formed transaction.
use mini_payment_gateway.Prelude.{if◌then◌else◌, ◌≡◌, ◌↔◌, true, ok, arith}
use mini_payment_gateway.Prelude.Int.{pos, eqb_ℤ, ◌≤ℤ◌, ◌+ℤ◌, +ℤ_parts, -ℤ_parts, eq_of_parts}
use mini_payment_gateway.Money.{Amount}
use mini_payment_gateway.Domain.Transaction.Validity.{
  IsValid, is_open, remaining_refundable_exact, refunded_sum,
}
use mini_payment_gateway.Domain.Transaction.{Status, Transaction, Time, refund}

-- What `refund` asks for, in terms of whole numbers.
abbrev pub Refundable : Transaction → Amount → Type 0
Refundable t a =
    (pos 1 ≤ℤ a) × (is_open t.status ≡ true) × (t.refunded_amount +ℤ a ≤ℤ t.captured_amount)

-- What `refund` changes.
abbrev pub Refunded : Transaction → Amount → Transaction → Type 0
Refunded t a r =
    (r.status
      ≡ (if eqb_ℤ (t.refunded_amount +ℤ a) t.captured_amount then Status.refunded else t.status))
    × (r.refunded_amount ≡ t.refunded_amount +ℤ a)
    × (r.captured_amount ≡ t.captured_amount)
    × (r.amount ≡ t.amount)
    × (r.id ≡ t.id)
    × (r.merchant_id ≡ t.merchant_id)
    × (r.currency ≡ t.currency)
    × (r.version ≡ t.version)
    × (r.captured_at ≡ t.captured_at)

module _ {t : Transaction} (valid : IsValid t) where
  refund_needs : (a : Amount) (now : Time) → (refund a now t).0 ≡ ok tt → Refundable t a
  unfolding refund
  refund_needs a now h = ground (
    arith,
    remaining_refundable_exact valid,
    -ℤ_parts t.captured_amount t.refunded_amount,
    +ℤ_parts t.refunded_amount a,
  )

  refund_accepts : (a : Amount) (now : Time) → Refundable t a → (refund a now t).0 ≡ ok tt
  unfolding refund
  refund_accepts a now h = ground (
    arith,
    remaining_refundable_exact valid,
    -ℤ_parts t.captured_amount t.refunded_amount,
    +ℤ_parts t.refunded_amount a,
  )

  -- On a well-formed transaction Refund succeeds exactly when the amount is positive, the status is
  -- captured or settled, and what was refunded before and the amount do not exceed what was
  -- captured together.
  pub refund_iff : (a : Amount) (now : Time) → ((refund a now t).0 ≡ ok tt) ↔ Refundable t a
  refund_iff a now = (refund_needs a now, refund_accepts a now)

  -- On a well-formed transaction a Refund that succeeds adds exactly its amount to what was
  -- refunded, with no wrap-around, and moves to refunded when that reaches what was captured;
  -- otherwise the status stays, and so do the other amounts, the version and the owner.
  pub refund-Refunded :
      (a : Amount) (now : Time) → (refund a now t).0 ≡ ok tt → Refunded t a (refund a now t).1
  unfolding refund
  refund-Refunded a now h = ground (arith, remaining_refundable_exact valid, refunded_sum valid a)

  pub refund-IsValid :
      (a : Amount) (now : Time) → (refund a now t).0 ≡ ok tt → IsValid (refund a now t).1
  refund-IsValid a now h = ground (
    arith,
    refund_needs a now h,
    refund-Refunded a now h,
    +ℤ_parts t.refunded_amount a,
    eq_of_parts (t.refunded_amount +ℤ a) t.captured_amount,
  )
