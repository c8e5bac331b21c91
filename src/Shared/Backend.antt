-- ===== src/Shared/Backend.antt =====
-- `BaseMemoryBackend` of shared-bridge/src/shared_bridge/backend.py, one child for each part.
pub mod State
pub mod Trace
pub mod Recall
pub mod Extract
pub mod Generation
pub mod Rewrite
pub mod Delivery
pub mod Record
pub mod Finalize
pub mod Start
