-- ===== src/Contracts.antt =====
-- The records and state machines that the runtime's parts share (solana_agent/contracts).
pub mod Authority
pub mod Command
pub mod Lifecycle
pub mod Mission
pub mod Moves
