-- ===== src/Domain/Transaction/Operation.antt =====
-- The mutating methods of `Transaction`, as one type of calls.
use mini_payment_gateway.Prelude.{String}
use mini_payment_gateway.Money.{Amount}
use mini_payment_gateway.Domain.Transaction.{Time}

pub data Operation : Type 0 where
  authorize : String → String → String → Time → Operation
  fail : String → Time → Operation
  void : Time → Operation
  capture : Amount → Time → Operation
  refund : Amount → Time → Operation
  settle : Time → Operation
