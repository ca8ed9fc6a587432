-- ===== src/Service/Payment/Checks.antt =====
-- The first parts of the operations only read.
use mini_payment_gateway.Prelude.{ℕ, subst, arith}
use mini_payment_gateway.Money.{Amount}
use mini_payment_gateway.Domain.Transaction.{
  Transaction, Method, capture as capture_row, refund as refund_row, remaining_capturable,
  remaining_refundable,
}
use mini_payment_gateway.Repository.{Store}
use mini_payment_gateway.Repository.Keeps.{Keeps, Keeps-seq, Keeps-get_by_merchant_and_id}
use mini_payment_gateway.Service.Payment.{Env, or_all, on_row, capture_check, refund_check}

module _ (P : Store → Type 0) where
  pub Keeps-on_row : (m : Method) (t : Transaction) → Keeps P (on_row m t)
  Keeps-on_row m t s h = subst P {x = s} {y = (on_row m t s).1} (ground arith) h

  pub Keeps-capture_check :
      (env : Env) (merchant_id tx_id : ℕ) (amount : Amount)
      → Keeps P (capture_check env merchant_id tx_id amount)
  unfolding capture_check
  Keeps-capture_check env merchant_id tx_id amount =
      Keeps-seq P _ _ (Keeps-get_by_merchant_and_id P env.faults merchant_id tx_id) λ txn.
        Keeps-seq P _ _
          (Keeps-on_row (capture_row (or_all amount (remaining_capturable txn)) env.checked_at) txn)
          λ t s h. h

  pub Keeps-refund_check :
      (env : Env) (merchant_id tx_id : ℕ) (amount : Amount)
      → Keeps P (refund_check env merchant_id tx_id amount)
  unfolding refund_check
  Keeps-refund_check env merchant_id tx_id amount =
      Keeps-seq P _ _ (Keeps-get_by_merchant_and_id P env.faults merchant_id tx_id) λ txn.
        Keeps-seq P _ _
          (Keeps-on_row (refund_row (or_all amount (remaining_refundable txn)) env.checked_at) txn)
          λ t s h. h
