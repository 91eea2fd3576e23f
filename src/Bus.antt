-- ===== src/Bus.antt =====
-- The package `bus`.
pub mod Channel
pub mod ChannelManager
pub mod Fabric
pub mod Listener
pub mod Monitor
pub mod Store
pub mod StoreManager
pub mod StoreSync
pub mod Transaction
