-- ===== src/Execution.antt =====
-- Governed command execution (solana_agent/execution).
pub mod Executor
pub mod Journal
pub mod Governed
