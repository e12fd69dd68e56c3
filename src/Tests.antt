-- ===== src/Tests.antt =====
-- Concrete inputs, and the theorems at them.
pub mod Fixtures
pub mod Commands
pub mod Policies
pub mod Gateways
pub mod Steps
pub mod Solana
pub mod Missions
