-- ===== src/Missions.antt =====
-- The missions (solana_agent/missions).
pub mod Graph
pub mod Definitions
