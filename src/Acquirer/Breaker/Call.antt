-- ===== src/Acquirer/Breaker/Call.antt =====
-- The methods of the breaker, as one type of calls.
use mini_payment_gateway.Domain.Transaction.{Time}

-- A call of one of the methods, by any of the requests that share the breaker.
pub data Call : Type 0 where
  current : Time → Call
  allow : Time → Call
  success : Call
  failure : Time → Call
