-- ===== src/Utils.antt =====
-- utils: the programs that run around the agent.
pub mod Merge
