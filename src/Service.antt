-- ===== src/Service.antt =====
-- The package `service`.
pub mod Registry
pub mod Core
pub mod Rest
