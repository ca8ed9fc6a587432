-- ===== src/Acquirer.antt =====
-- internal/acquirer: what stands between the service and the card processor.
pub mod Breaker
pub mod Guarded
pub mod Mock
