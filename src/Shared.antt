-- ===== src/Shared.antt =====
-- shared-bridge/src/shared_bridge
pub mod Truncate
pub mod Ids
pub mod Chunk
pub mod Config
pub mod Integration
pub mod Recall
pub mod Annotate
pub mod Backend
pub mod Agent
pub mod Json
pub mod Poll
pub mod SideModel
