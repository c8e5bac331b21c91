-- ===== src/Tests.antt =====
-- Runs of the model at concrete inputs, and the theorems at inputs that meet their hypotheses.
mod Fixture
mod Text
mod Recall
mod Transport
mod Backend
mod Episode
mod Queries
mod Agent
mod Cure
mod Bridge
mod Extractor
mod Generation
mod Platform
mod Mem0
mod TencentDb
mod Merge
mod Settings
