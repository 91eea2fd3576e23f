-- ===== src/Bridge.antt =====
-- The package `bridge`: connections to message brokers.
pub mod Connection
