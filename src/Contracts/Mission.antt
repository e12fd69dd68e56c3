-- ===== src/Contracts/Mission.antt =====
-- solana_agent/contracts/mission.py: mission definitions, and the states of a mission step.
use solana_agent.Prelude.{ℕ, String, Bool, Option, List, [], ◌∷◌, nat_eq, any}
use solana_agent.Prelude.Int.{ℤ}
use solana_agent.Json.{Json}

pub record MissionInputDefinition : Type 0 where
  pub name : String
  pub required : Bool
  pub default : Json
  pub description : String

pub record CheckDefinition : Type 0 where
  pub type : String
  pub parameters : Json

pub record MissionStepDefinition : Type 0 where
  pub id : String
  pub adapter : String
  pub operation : String
  pub depends_on : List String
  pub arguments : Json
  pub cwd : String
  pub timeout_seconds : ℤ
  pub preconditions : List CheckDefinition
  pub acceptance : List CheckDefinition

pub record MissionDefinition : Type 0 where
  pub id : String
  pub version : String
  pub goal : String
  pub inputs : List MissionInputDefinition
  pub steps : List MissionStepDefinition

pub data MissionStepStatus : Type 0 where
  pending running waiting_approval succeeded failed blocked skipped : MissionStepStatus

unfoldable pub step_value : MissionStepStatus → String
step_value pending = "pending"
step_value running = "running"
step_value waiting_approval = "waiting_approval"
step_value succeeded = "succeeded"
step_value failed = "failed"
step_value blocked = "blocked"
step_value skipped = "skipped"

-- Members are equal where they stand at the same place of the enum.
abbrev ordinal : MissionStepStatus → ℕ
ordinal pending = 0
ordinal running = 1
ordinal waiting_approval = 2
ordinal succeeded = 3
ordinal failed = 4
ordinal blocked = 5
ordinal skipped = 6

unfoldable pub step_eq : MissionStepStatus → MissionStepStatus → Bool
step_eq a b = nat_eq (ordinal a) (ordinal b)

unfoldable pub mission_step_transitions : MissionStepStatus → List MissionStepStatus
mission_step_transitions pending = running ∷ failed ∷ blocked ∷ skipped ∷ []
mission_step_transitions running = waiting_approval ∷ succeeded ∷ failed ∷ []
mission_step_transitions waiting_approval = succeeded ∷ failed ∷ []
mission_step_transitions failed = running ∷ failed ∷ []
mission_step_transitions blocked = running ∷ failed ∷ blocked ∷ []
mission_step_transitions succeeded = []
mission_step_transitions skipped = []

-- The test of `require_mission_step_transition`, which raises where it is false.
unfoldable pub may_step : MissionStepStatus → MissionStepStatus → Bool
unfolding mission_step_transitions step_eq
may_step current target = any (step_eq target) (mission_step_transitions current)

pub record MissionStepRecord : Type 0 where
  pub run_id : String
  pub step_id : String
  pub definition_hash : String
  pub status : MissionStepStatus
  pub attempt : ℕ
  pub command_id : Option String
  pub result : Option Json
  pub error : Option Json
  pub created_at : ℕ
  pub updated_at : ℕ
