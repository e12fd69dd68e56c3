-- ===== src/Contracts/Command.antt =====
-- solana_agent/contracts/command.py: the states of a command and the moves between them.
pub mod Paths
use solana_agent.Prelude.{ℕ, String, Bool, Option, List, [], ◌∷◌, nat_eq, any}
use solana_agent.Prelude.Int.{ℤ}
use solana_agent.Json.{Json}

pub data CommandStatus : Type 0 where
  planned validating approval_required authorized running : CommandStatus
  succeeded failed rejected cancelled interrupted timed_out : CommandStatus

unfoldable pub status_value : CommandStatus → String
status_value planned = "planned"
status_value validating = "validating"
status_value approval_required = "approval_required"
status_value authorized = "authorized"
status_value running = "running"
status_value succeeded = "succeeded"
status_value failed = "failed"
status_value rejected = "rejected"
status_value cancelled = "cancelled"
status_value interrupted = "interrupted"
status_value timed_out = "timed_out"

-- Members are equal where they stand at the same place of the enum.
abbrev ordinal : CommandStatus → ℕ
ordinal planned = 0
ordinal validating = 1
ordinal approval_required = 2
ordinal authorized = 3
ordinal running = 4
ordinal succeeded = 5
ordinal failed = 6
ordinal rejected = 7
ordinal cancelled = 8
ordinal interrupted = 9
ordinal timed_out = 10

unfoldable pub status_eq : CommandStatus → CommandStatus → Bool
status_eq a b = nat_eq (ordinal a) (ordinal b)

-- `status in {…}`
abbrev pub status_in : CommandStatus → List CommandStatus → Bool
status_in s set = any (status_eq s) set

abbrev pub terminal_command_statuses : List CommandStatus
terminal_command_statuses = succeeded ∷ failed ∷ rejected ∷ cancelled ∷ interrupted ∷ timed_out ∷ []

unfoldable pub command_status_transitions : CommandStatus → List CommandStatus
command_status_transitions planned = validating ∷ cancelled ∷ []
command_status_transitions validating =
    approval_required ∷ authorized ∷ rejected ∷ failed ∷ cancelled ∷ []
command_status_transitions approval_required = authorized ∷ rejected ∷ cancelled ∷ []
command_status_transitions authorized = running ∷ failed ∷ cancelled ∷ []
command_status_transitions running = succeeded ∷ failed ∷ interrupted ∷ timed_out ∷ []
command_status_transitions succeeded = []
command_status_transitions failed = []
command_status_transitions rejected = []
command_status_transitions cancelled = []
command_status_transitions interrupted = []
command_status_transitions timed_out = []

unfoldable pub is_terminal_command_status : CommandStatus → Bool
unfolding status_eq
is_terminal_command_status status = status_in status terminal_command_statuses

-- The test of `require_command_transition`, which raises where it is false.
unfoldable pub may_transition : CommandStatus → CommandStatus → Bool
unfolding command_status_transitions status_eq
may_transition current target = status_in target (command_status_transitions current)

pub record CommandRecord : Type 0 where
  pub id : String
  pub run_id : String
  pub step_id : String
  pub adapter : String
  pub operation : String
  pub arguments : Json
  pub cwd : String
  pub timeout_seconds : ℤ
  pub idempotency_key : String
  pub status : CommandStatus
  pub expected_state : Option String
  pub policy_decision : Option String
  pub policy_reason : Option String
  pub policy_decision_id : Option String
  pub approval_id : Option String
  pub started_at : Option ℕ
  pub finished_at : Option ℕ
  pub exit_code : Option ℤ
  pub result : Option Json
  pub error : Option Json
  pub stdout_artifact_id : Option String
  pub stderr_artifact_id : Option String
  pub created_at : ℕ
  pub updated_at : ℕ
