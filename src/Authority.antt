-- ===== src/Authority.antt =====
-- Who may do what (solana_agent/authority).
pub mod Redaction
pub mod Rules
pub mod Keys
pub mod Inputs
pub mod Policy
pub mod Approvals
