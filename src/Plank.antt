-- ===== src/Plank.antt =====
-- The package `plank`: the HTTP server around the bus.
pub mod Middleware
pub mod Server
pub mod Utils
