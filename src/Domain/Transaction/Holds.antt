-- ===== src/Domain/Transaction/Holds.antt =====
-- The methods that move no money: `Authorize`, `Fail`, `Void` and `Settle`.
use mini_payment_gateway.Prelude.{◌≡◌, String, ok, arith}
use mini_payment_gateway.Domain.Transaction.{Transaction, Time, authorize, fail, void, settle}
use mini_payment_gateway.Domain.Transaction.Validity.{IsValid}

-- What such a method leaves as it was.
pub record Unmoved (t t' : Transaction) : Type 0 where
  pub same_id : t'.id ≡ t.id
  pub same_version : t'.version ≡ t.version
  pub same_amount : t'.amount ≡ t.amount
  pub same_captured : t'.captured_amount ≡ t.captured_amount
  pub same_refunded : t'.refunded_amount ≡ t.refunded_amount

module _ {t : Transaction} (valid : IsValid t) where
  pub authorize_ok :
      (ref last4 brand : String) (now : Time)
      → (authorize ref last4 brand now t).0 ≡ ok tt
      → Unmoved t (authorize ref last4 brand now t).1 × IsValid (authorize ref last4 brand now t).1
  unfolding authorize
  authorize_ok ref last4 brand now h = ground arith

  pub fail_ok :
      (code : String) (now : Time)
      → (fail code now t).0 ≡ ok tt
      → Unmoved t (fail code now t).1 × IsValid (fail code now t).1
  unfolding fail
  fail_ok code now h = ground arith

  pub void_ok :
      (now : Time) → (void now t).0 ≡ ok tt → Unmoved t (void now t).1 × IsValid (void now t).1
  unfolding void
  void_ok now h = ground arith

  pub settle_ok :
      (now : Time)
      → (settle now t).0 ≡ ok tt
      → Unmoved t (settle now t).1 × IsValid (settle now t).1
  unfolding settle
  settle_ok now h = ground arith
