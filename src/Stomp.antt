-- ===== src/Stomp.antt =====
-- The package `stompserver`.
pub mod Text
pub mod Config
pub mod Frame
pub mod Conn
pub mod Server
