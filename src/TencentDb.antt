-- ===== src/TencentDb.antt =====
-- integration/tencentdb/src/tencentdb_bridge: the TencentDB bridge.
pub mod Utf16
pub mod Client
