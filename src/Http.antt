-- ===== src/Http.antt =====
-- internal/transport/http: the requests that are read, and the errors of the use cases as responses.
pub mod Response
pub mod Request
pub mod Ledger
pub mod Payments
