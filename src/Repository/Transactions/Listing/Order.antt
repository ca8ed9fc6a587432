-- ===== src/Repository/Transactions/Listing/Order.antt =====
-- The order of a listing: by the time and the id, and the ids are distinct.
use mini_payment_gateway.Prelude.{List, arith}
use mini_payment_gateway.Prelude.Lists.{Distinct}
use mini_payment_gateway.Prelude.Sorting.{IsOrder}
use mini_payment_gateway.Domain.Transaction.{Transaction}
use mini_payment_gateway.Repository.Transactions.Listing.{newer}

-- The key of the table: no two rows have one id.
abbrev pub IsKeyed : List Transaction → Type 0
IsKeyed = Distinct (λ t. t.id)

pub newer-IsOrder : IsOrder newer (λ t. t.id)
newer-IsOrder = record {
  irreflexive = λ x. ground arith;
  transitive = λ x y z h k. ground arith;
  total = λ x y n h. ground arith;
}
