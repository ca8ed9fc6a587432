-- ===== src/Domain/Ledger/Examples.antt =====
-- The theorems on entry groups at concrete groups.
use mini_payment_gateway.Prelude.{◌≡◌, refl, ◌↔◌, ok, none, [], ◌∷◌, arith}
use mini_payment_gateway.Prelude.Int.{pos, ◌≤ℤ◌, ◌<ℤ◌}
use mini_payment_gateway.Prelude.Int64.{InRange}
use mini_payment_gateway.Prelude.Lists.{All}
use mini_payment_gateway.Domain.Transaction.{Status, Transaction}
use mini_payment_gateway.Domain.Ledger.{
  Account, Direction, EventType, LedgerEntry, EntryGroup, validate, totals, new_capture_entry_group,
}
use mini_payment_gateway.Domain.Ledger.Legs.{capture_group, capture_group_iff}
use mini_payment_gateway.Domain.Ledger.Validation.{IsLeg, validate_iff}

abbrev sale : Transaction
sale = record {
  id = 7;
  merchant_id = 1;
  reference = "order-1";
  amount = pos 1000;
  currency = "USD";
  status = Status.captured;
  captured_amount = pos 1000;
  refunded_amount = pos 0;
  card_last4 = "4242";
  card_brand = "visa";
  acquirer_ref = "ref";
  failure_code = "";
  metadata = [];
  version = 2;
  authorized_at = none;
  captured_at = none;
  settled_at = none;
  created_at = pos 5;
  updated_at = pos 5;
}

abbrev entry : Account → Direction → LedgerEntry
entry account direction = record {
  id = 0;
  entry_group_id = 3;
  transaction_id = 7;
  account = account;
  merchant_id = none;
  direction = direction;
  amount = pos 10;
  currency = "USD";
  event_type = EventType.refund;
  created_at = pos 9;
}

abbrev two_legs : EntryGroup
two_legs = record {
  id = 3;
  entries =
      entry (Account.merchant_payable 1) Direction.debit
      ∷ entry Account.acquirer_receivable Direction.credit
      ∷ [];
}

validate-two_legs : validate two_legs ≡ ok tt
unfolding validate
validate-two_legs = refl

validate_iff_example :
    (validate two_legs ≡ ok tt)
    ↔ (All (IsLeg "USD") two_legs.entries × ((totals two_legs).0 ≡ (totals two_legs).1))
validate_iff_example = validate_iff two_legs _ _ [] refl

sale-InRange : InRange (pos 1000)
sale-InRange = ground arith

capture_group_iff_example :
    (new_capture_entry_group 3 sale (pos 1000) (pos 25) (pos 9)
      ≡ ok (capture_group 3 sale (pos 9) (pos 1000) (pos 25)))
    ↔ ((pos 0 ≤ℤ pos 25) × (pos 25 <ℤ pos 1000))
capture_group_iff_example = capture_group_iff 3 sale (pos 9) (pos 1000) sale-InRange (pos 25)
