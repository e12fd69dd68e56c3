-- ===== src/Storage/Commands.antt =====
-- The `commands` table and the repository methods that read and write it
-- (solana_agent/storage/repositories.py).
pub mod Replay
pub mod Changes
pub mod Work
use Prim.Native.String.{◌++◌}
use solana_agent.Prelude.{
  ℕ, String, Bool, not, ◌&&◌, Option, none, some, List, [], ◌∷◌, ◌==◌, ltb, any, if◌then◌else◌,
}
use solana_agent.Prelude.Int.{ℤ, pos, ltb_ℤ}
use solana_agent.Json.{Json, put, Fields, text, number, object, end, field, dict}
use solana_agent.Contracts.Command.{
  CommandStatus, CommandRecord, planned, running, status_value, status_eq, status_in,
  may_transition, terminal_command_statuses,
}
use solana_agent.Exec.{
  Action, key_error, integrity_error, invalid_command_transition, gets, or_raise, require, modify,
  transaction, utc_now, ◌>>=◌, ◌>>◌,
}
use solana_agent.Storage.Tables.{Tables}
use solana_agent.Storage.Events.{run_exists, command_exists, append_event}

-- `SELECT * FROM commands WHERE id = ?`
unfoldable pub find_command : String → List CommandRecord → Option CommandRecord
find_command id [] = none
find_command id (c ∷ cs) = if c.id == id then some c else find_command id cs

unfoldable pub get_command : String → Action (Option CommandRecord)
get_command id = gets (λ t. find_command id t.commands)

unfoldable pub require_command : String → Action CommandRecord
unfolding get_command
require_command id = do
  found ← get_command id
  or_raise found (key_error ("command not found: " ++ id))

-- `WHERE run_id = ? AND idempotency_key = ?`
pub find_key : String → String → List CommandRecord → Option CommandRecord
find_key run_id key [] = none
find_key run_id key (c ∷ cs) =
    if c.run_id == run_id && c.idempotency_key == key then some c else find_key run_id key cs

unfoldable pub find_command_by_idempotency : String → String → Action (Option CommandRecord)
find_command_by_idempotency run_id key = gets (λ t. find_key run_id key t.commands)

-- PRIMARY KEY(id), the reference to the run, CHECK (timeout_seconds > 0), and
-- UNIQUE(run_id, idempotency_key).
unfoldable pub command_fits : CommandRecord → Tables → Bool
command_fits c t =
    not (command_exists c.id t.commands)
    && (run_exists c.run_id t.runs
        && (ltb_ℤ (pos 0) c.timeout_seconds
            && not (
                any (λ o. o.run_id == c.run_id && o.idempotency_key == c.idempotency_key)
                  t.commands)))

abbrev pub add_command : CommandRecord → Tables → Tables
add_command c t = record t { commands = c ∷ t.commands }

-- What `insert_planned_command` is given, beside the identifier.
pub record PlannedCommand : Type 0 where
  pub run_id : String
  pub step_id : String
  pub adapter : String
  pub operation : String
  pub arguments : Json
  pub cwd : String
  pub timeout_seconds : ℤ
  pub idempotency_key : String
  pub expected_state : Option String

abbrev pub planned_row : String → PlannedCommand → ℕ → CommandRecord
planned_row id p now = record {
  id = id;
  run_id = p.run_id;
  step_id = p.step_id;
  adapter = p.adapter;
  operation = p.operation;
  arguments = p.arguments;
  cwd = p.cwd;
  timeout_seconds = p.timeout_seconds;
  idempotency_key = p.idempotency_key;
  status = planned;
  expected_state = p.expected_state;
  policy_decision = none;
  policy_reason = none;
  policy_decision_id = none;
  approval_id = none;
  started_at = none;
  finished_at = none;
  exit_code = none;
  result = none;
  error = none;
  stdout_artifact_id = none;
  stderr_artifact_id = none;
  created_at = now;
  updated_at = now;
}

abbrev pub planned_payload : PlannedCommand → Json
planned_payload p = dict (
    ("adapter", text p.adapter)
    ∷ ("operation", text p.operation)
    ∷ ("step_id", text p.step_id)
    ∷ [])

unfoldable pub write_planned : String → PlannedCommand → ℕ → Action (Unit {0})
write_planned id p now = do
  fits ← gets (command_fits (planned_row id p now))
  require fits (integrity_error "commands")
  modify (add_command (planned_row id p now))
  append_event p.run_id (some id) "command.planned" (planned_payload p) now

unfoldable pub insert_planned_command : String → PlannedCommand → Action CommandRecord
unfolding write_planned
insert_planned_command id p = do
  now ← utc_now
  transaction (write_planned id p now)
  require_command id

-- The keyword arguments of `transition_command`.
pub record Patch : Type 0 where
  pub payload : Fields
  pub policy_decision : Option String
  pub policy_reason : Option String
  pub approval_id : Option String
  pub policy_decision_id : Option String
  pub exit_code : Option ℤ
  pub result : Option Json
  pub error : Option Json
  pub stdout_artifact_id : Option String
  pub stderr_artifact_id : Option String

abbrev pub no_patch : Patch
no_patch = record {
  payload = end;
  policy_decision = none;
  policy_reason = none;
  approval_id = none;
  policy_decision_id = none;
  exit_code = none;
  result = none;
  error = none;
  stdout_artifact_id = none;
  stderr_artifact_id = none;
}

-- `COALESCE(?, column)`
abbrev pub coalesce {ℓ} : {A : Type ℓ} → Option A → Option A → Option A
coalesce none old = old
coalesce (some a) old = some a

-- The row that the UPDATE of `transition_command` writes.
unfoldable pub moved_row : CommandStatus → Patch → ℕ → CommandRecord → CommandRecord
unfolding status_eq
moved_row target p now row = record row {
  status = target;
  policy_decision = coalesce p.policy_decision row.policy_decision;
  policy_reason = coalesce p.policy_reason row.policy_reason;
  approval_id = coalesce p.approval_id row.approval_id;
  policy_decision_id = coalesce p.policy_decision_id row.policy_decision_id;
  started_at = if status_eq target running then some now else row.started_at;
  finished_at = if status_in target terminal_command_statuses then some now else row.finished_at;
  exit_code = coalesce p.exit_code row.exit_code;
  result = coalesce p.result row.result;
  error = coalesce p.error row.error;
  stdout_artifact_id = coalesce p.stdout_artifact_id row.stdout_artifact_id;
  stderr_artifact_id = coalesce p.stderr_artifact_id row.stderr_artifact_id;
  updated_at = now;
}

-- `WHERE id = ? AND status = ?`
unfoldable pub update_rows :
    String
    → CommandStatus
    → (CommandRecord → CommandRecord)
    → List CommandRecord
    → List CommandRecord
update_rows id current f [] = []
update_rows id current f (c ∷ cs) =
    (if c.id == id && status_eq c.status current then f c else c) ∷ update_rows id current f cs

-- Only `if value is not None`.
abbrev put_if {ℓ} : {A : Type ℓ} → String → (A → Json) → Option A → Fields → Fields
put_if key f none payload = payload
put_if key f (some a) payload = put key (f a) payload

abbrev same_json : Json → Json
same_json v = v

unfoldable pub transition_payload : Patch → Json
transition_payload p = object (
    put_if "error" same_json p.error (
      put_if "exit_code" number p.exit_code (
        put_if "policy_reason" text p.policy_reason
          (put_if "policy_decision" text p.policy_decision p.payload))))

unfoldable pub command_event : CommandStatus → String
unfolding status_value
command_event target = "command." ++ status_value target

unfoldable pub write_transition : String → CommandStatus → Patch → ℕ → Action (Unit {0})
write_transition id target p now = do
  found ← gets (λ t. find_command id t.commands)
  row ← or_raise found (key_error ("command not found: " ++ id))
  require (may_transition row.status target) (invalid_command_transition row.status target)
  modify
      (λ t. record t { commands = update_rows id row.status (moved_row target p now) t.commands })
  append_event row.run_id (some id) (command_event target) (transition_payload p) now

unfoldable pub transition_command : String → CommandStatus → Patch → Action CommandRecord
transition_command id target p = do
  now ← utc_now
  transaction (write_transition id target p now)
  require_command id

-- `SELECT * FROM commands WHERE status = 'running' ORDER BY created_at`
abbrev insert_by_time : CommandRecord → List CommandRecord → List CommandRecord
insert_by_time c [] = c ∷ []
insert_by_time c (d ∷ ds) =
    let rest = insert_by_time c ds in if ltb d.created_at c.created_at then d ∷ rest else c ∷ d ∷ ds

pub running_rows : List CommandRecord → List CommandRecord
running_rows [] = []
running_rows (c ∷ cs) =
    let rest = running_rows cs in if status_eq c.status running then insert_by_time c rest else rest

unfoldable pub list_running_commands : Action (List CommandRecord)
list_running_commands = gets (λ t. running_rows t.commands)
