-- ===== src/Mem0.antt =====
-- integration/mem0/src/mem0_bridge: the mem0 bridge.
pub mod Client
pub mod Stores
pub mod Hits
pub mod Bridge
pub mod Settings
