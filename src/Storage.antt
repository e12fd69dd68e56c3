-- ===== src/Storage.antt =====
-- The journal's database and its repository (solana_agent/storage).
pub mod Tables
pub mod Events
pub mod Runs
pub mod Commands
pub mod Approvals
pub mod Artifacts
pub mod Steps
pub mod Journaled
pub mod Quiet
