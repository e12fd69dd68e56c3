-- ===== src/Contracts/Authority.antt =====
-- solana_agent/contracts/authority.py. A `StrEnum` member compares as its value.
use solana_agent.Prelude.{ℕ, String, Bool, Option, List, ◌==◌}
use solana_agent.Prelude.Int.{ℤ}
use solana_agent.Json.{Json}

pub data PolicyEffect : Type 0 where
  allow deny require_approval : PolicyEffect

unfoldable pub effect_value : PolicyEffect → String
effect_value PolicyEffect.allow = "allow"
effect_value PolicyEffect.deny = "deny"
effect_value PolicyEffect.require_approval = "require_approval"

pub data RiskLevel : Type 0 where
  low medium high critical : RiskLevel

unfoldable pub risk_value : RiskLevel → String
risk_value low = "low"
risk_value medium = "medium"
risk_value high = "high"
risk_value critical = "critical"

pub data ApprovalStatus : Type 0 where
  pending approved denied expired consumed : ApprovalStatus

unfoldable pub approval_value : ApprovalStatus → String
approval_value pending = "pending"
approval_value approved = "approved"
approval_value denied = "denied"
approval_value expired = "expired"
approval_value consumed = "consumed"

abbrev pub approval_eq : ApprovalStatus → ApprovalStatus → Bool
unfolding approval_value
approval_eq a b = approval_value a == approval_value b

pub record PolicyContext : Type 0 where
  pub workspace_root : String
  pub cluster : Option String
  pub wallet : Option String
  pub program_id : Option String
  pub max_lamports : Option ℤ
  pub runtime_contract_hash : Option String

pub record PolicyDecision : Type 0 where
  pub effect : PolicyEffect
  pub rule_id : String
  pub policy_version : String
  pub reason : String
  pub risk : RiskLevel
  pub required_evidence : List String
  pub input_snapshot : Json
  pub input_hash : String

pub record PolicyDecisionRecord : Type 0 where
  pub id : String
  pub run_id : String
  pub command_id : String
  pub effect : PolicyEffect
  pub rule_id : String
  pub policy_version : String
  pub reason : String
  pub risk : RiskLevel
  pub required_evidence : List String
  pub input_snapshot : Json
  pub input_hash : String
  pub created_at : ℕ

pub record ApprovalRecord : Type 0 where
  pub id : String
  pub run_id : String
  pub command_id : String
  pub policy_decision_id : String
  pub manifest : Json
  pub manifest_hash : String
  pub status : ApprovalStatus
  pub requested_at : ℕ
  pub expires_at : ℕ
  pub decided_at : Option ℕ
  pub approved_by : Option String
  pub note : Option String
  pub consumed_at : Option ℕ
