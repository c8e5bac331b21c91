-- ===== src/Cure.antt =====
-- integration/cure_memory/src/cure_memory: the CURE memory product.
pub mod Model
pub mod Db
pub mod Store
pub mod System
pub mod Session
pub mod Search
pub mod Client
pub mod Extractor
pub mod Bridge
