-- ===== src/Gateway.antt =====
-- The gateway for external execution (gateway).
pub mod Protocol
pub mod Journal
pub mod Service
pub mod Solana
