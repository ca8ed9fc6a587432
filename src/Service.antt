-- ===== src/Service.antt =====
-- internal/service: the use cases.
pub mod Payment
pub mod Reconciliation
