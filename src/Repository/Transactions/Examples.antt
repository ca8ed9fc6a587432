-- ===== src/Repository/Transactions/Examples.antt =====
-- The optimistic lock at a concrete row.
use mini_payment_gateway.Prelude.{◌≡◌, refl, none, [], ◌∷◌, err}
use mini_payment_gateway.Prelude.Int.{pos}
use mini_payment_gateway.Domain.Errors.{Error}
use mini_payment_gateway.Domain.Transaction.{Status, Transaction}
use mini_payment_gateway.Repository.{Store, Faults, empty_store}
use mini_payment_gateway.Repository.Transactions.{update}
use mini_payment_gateway.Repository.Transactions.Locking.{update_excludes}

abbrev no_faults : Faults
no_faults k = none

abbrev row : Transaction
row = record {
  id = 7;
  merchant_id = 1;
  reference = "order-1";
  amount = pos 1000;
  currency = "USD";
  status = Status.created;
  captured_amount = pos 0;
  refunded_amount = pos 0;
  card_last4 = "";
  card_brand = "";
  acquirer_ref = "";
  failure_code = "";
  metadata = [];
  version = 0;
  authorized_at = none;
  captured_at = none;
  settled_at = none;
  created_at = pos 5;
  updated_at = pos 5;
}

abbrev store : Store
store = record empty_store { transactions = row ∷ [] }

abbrev voided : Transaction
voided = record row { status = Status.voided }

abbrev failed : Transaction
failed = record row { status = Status.failed }

-- After the row was written as voided, it is not written as failed from the same version.
update_excludes_example :
    let after = (update no_faults voided (pos 9) store).1 in
    update no_faults failed (pos 10) after ≡ (err Error.concurrent_modification, after)
unfolding update
update_excludes_example =
    update_excludes no_faults no_faults voided failed (pos 9) (pos 10) store refl refl refl refl
