-- ===== src/Storage/Tables.antt =====
-- The tables of solana_agent/storage/database.py, newest row first, and their constraints.
-- A JSON column holds the value whose canonical text the source writes there.
use solana_agent.Prelude.{ℕ, String, Option, List}
use solana_agent.Json.{Json}
use solana_agent.Contracts.Authority.{ApprovalRecord, PolicyDecisionRecord}
use solana_agent.Contracts.Command.{CommandRecord}
use solana_agent.Contracts.Lifecycle.{RunRecord}
use solana_agent.Contracts.Mission.{MissionStepRecord}

pub record EventRecord : Type 0 where
  pub id : String
  pub run_id : String
  pub command_id : Option String
  pub sequence : ℕ
  pub event_type : String
  pub payload : Json
  pub created_at : ℕ

pub record ArtifactRecord : Type 0 where
  pub id : String
  pub run_id : String
  pub command_id : Option String
  pub kind : String
  pub content : String
  pub content_hash : String
  pub size_bytes : ℕ
  pub created_at : ℕ

pub record Tables : Type 0 where
  pub runs : List RunRecord
  pub commands : List CommandRecord
  pub events : List EventRecord
  pub artifacts : List ArtifactRecord
  pub policy_decisions : List PolicyDecisionRecord
  pub approvals : List ApprovalRecord
  pub mission_steps : List MissionStepRecord
