-- ===== src/Domain.antt =====
-- internal/domain: the entities and their rules.
pub mod Errors
pub mod Transaction
pub mod Ledger
pub mod Webhook
