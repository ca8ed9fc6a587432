-- ===== src/Repository/Entries/Listing/Order.antt =====
-- The order of the lines: by their ids, which are distinct.
use mini_payment_gateway.Prelude.{List, arith}
use mini_payment_gateway.Prelude.Lists.{Distinct}
use mini_payment_gateway.Prelude.Sorting.{IsOrder}
use mini_payment_gateway.Domain.Ledger.{LedgerEntry}
use mini_payment_gateway.Repository.Entries.Listing.{newer}

-- The key of the table: no two lines have one id.
abbrev pub IsKeyed : List LedgerEntry → Type 0
IsKeyed = Distinct (λ e. e.id)

pub newer-IsOrder : IsOrder newer (λ e. e.id)
newer-IsOrder = record {
  irreflexive = λ x. ground arith;
  transitive = λ x y z h k. ground arith;
  total = λ x y n h. ground arith;
}
