-- ===== src/Contracts/Lifecycle.antt =====
-- solana_agent/contracts/lifecycle.py
use solana_agent.Prelude.{ℕ, String, Option}
use solana_agent.Json.{Json}

pub data RunStatus : Type 0 where
  created running completed failed cancelled interrupted : RunStatus

unfoldable pub run_value : RunStatus → String
run_value created = "created"
run_value running = "running"
run_value completed = "completed"
run_value failed = "failed"
run_value cancelled = "cancelled"
run_value interrupted = "interrupted"

pub record RunRecord : Type 0 where
  pub id : String
  pub mission_id : String
  pub status : RunStatus
  pub metadata : Json
  pub policy_snapshot : Option Json
  pub policy_snapshot_hash : Option String
  pub error : Option Json
  pub created_at : ℕ
  pub updated_at : ℕ
