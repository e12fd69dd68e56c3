-- ===== src/Storage/Steps.antt =====
-- The `mission_steps` table and its repository methods (solana_agent/storage/repositories.py).
pub mod Changes
use Prim.Native.Nat.{compare as compare_ℕ, Ordering}
use Prim.Native.String.{◌++◌, compare}
use solana_agent.Prelude.{
  ℕ, ◌+◌, String, Bool, true, false, not, ◌&&◌, Option, none, some, List, [], ◌∷◌, ◌==◌, any,
  if◌then◌else◌,
}
use solana_agent.Prelude.Int.{pos}
use solana_agent.Json.{Json, text, number, dict, entry_if}
use solana_agent.Contracts.Mission.{
  MissionStepStatus, MissionStepRecord, pending, step_value, may_step,
}
use solana_agent.Exec.{
  Action, key_error, integrity_error, invalid_mission_step_transition, pure, gets, or_raise,
  require, modify, transaction, utc_now, ◌>>=◌, ◌>>◌,
}
use solana_agent.Storage.Tables.{Tables}
use solana_agent.Storage.Events.{run_exists, command_exists, append_event}
use solana_agent.Storage.Commands.{coalesce}
use solana_agent.Storage.Runs.{require_run}

abbrev pub is_step : String → String → MissionStepRecord → Bool
is_step run_id step_id r = r.run_id == run_id && r.step_id == step_id

unfoldable pub find_step : String → String → List MissionStepRecord → Option MissionStepRecord
find_step run_id step_id [] = none
find_step run_id step_id (r ∷ rs) =
    if is_step run_id step_id r then some r else find_step run_id step_id rs

unfoldable pub require_mission_step : String → String → Action MissionStepRecord
require_mission_step run_id step_id = do
  found ← gets (λ t. find_step run_id step_id t.mission_steps)
  or_raise found (key_error ("mission step not found: " ++ (run_id ++ ("/" ++ step_id))))

-- `ORDER BY created_at, step_id`
abbrev step_precedes : MissionStepRecord → MissionStepRecord → Bool
step_precedes a b = elim (compare_ℕ a.created_at b.created_at) [
  | Ordering.lt ↦ true
  | Ordering.gt ↦ false
  | Ordering.eq ↦ elim (compare a.step_id b.step_id) [ Ordering.gt ↦ false | _ ↦ true ]
]

insert_step : MissionStepRecord → List MissionStepRecord → List MissionStepRecord
insert_step r [] = r ∷ []
insert_step r (x ∷ xs) = if step_precedes r x then r ∷ x ∷ xs else x ∷ insert_step r xs

-- `SELECT * FROM mission_steps WHERE run_id = ? ORDER BY created_at, step_id`
pub steps_of : String → List MissionStepRecord → List MissionStepRecord
unfolding insert_step
steps_of run_id [] = []
steps_of run_id (r ∷ rs) =
    let rest = steps_of run_id rs in if r.run_id == run_id then insert_step r rest else rest

unfoldable pub list_mission_steps : String → Action (List MissionStepRecord)
list_mission_steps run_id = gets (λ t. steps_of run_id t.mission_steps)

abbrev new_step : String → String → String → ℕ → MissionStepRecord
new_step run_id step_id definition_hash now = record {
  run_id = run_id;
  step_id = step_id;
  definition_hash = definition_hash;
  status = pending;
  attempt = 0;
  command_id = none;
  result = none;
  error = none;
  created_at = now;
  updated_at = now;
}

-- PRIMARY KEY(run_id, step_id), and the reference to the run.
abbrev step_fits : String → String → Tables → Bool
step_fits run_id step_id t =
    not (any (is_step run_id step_id) t.mission_steps) && run_exists run_id t.runs

unfoldable pub write_step : String → String → String → ℕ → Action (Unit {0})
write_step run_id step_id definition_hash now = do
  fits ← gets (step_fits run_id step_id)
  require fits (integrity_error "mission_steps")
  modify (λ t. record t {
    mission_steps = new_step run_id step_id definition_hash now ∷ t.mission_steps;
  })
  append_event run_id none "mission_step.planned"
      (dict (("step_id", text step_id) ∷ ("definition_hash", text definition_hash) ∷ [])) now

unfoldable pub write_steps : String → List (String × String) → ℕ → Action (Unit {0})
unfolding write_step
write_steps run_id [] now = pure tt
write_steps run_id ((step_id, definition_hash) ∷ rest) now = do
  write_step run_id step_id definition_hash now
  write_steps run_id rest now

unfoldable pub initialize_mission_steps :
    String → List (String × String) → Action (List MissionStepRecord)
unfolding write_steps
initialize_mission_steps run_id steps = do
  require_run run_id
  now ← utc_now
  transaction (write_steps run_id steps now)
  list_mission_steps run_id

-- The keyword arguments of `set_mission_step_status`.
pub record StepPatch : Type 0 where
  pub command_id : Option String
  pub result : Option Json
  pub error : Option Json
  pub increment_attempt : Bool

abbrev pub no_step_patch : StepPatch
no_step_patch = record { command_id = none; result = none; error = none; increment_attempt = false }

-- The row that the UPDATE writes.
abbrev pub next_attempt : StepPatch → MissionStepRecord → ℕ
next_attempt p row = row.attempt + (if p.increment_attempt then 1 else 0)

abbrev pub stepped_row :
    MissionStepStatus → StepPatch → ℕ → ℕ → MissionStepRecord → MissionStepRecord
stepped_row status p attempt now row = record row {
  status = status;
  attempt = attempt;
  command_id = coalesce p.command_id row.command_id;
  result = p.result;
  error = p.error;
  updated_at = now;
}

unfoldable pub update_steps :
    String
    → String
    → (MissionStepRecord → MissionStepRecord)
    → List MissionStepRecord
    → List MissionStepRecord
update_steps run_id step_id f [] = []
update_steps run_id step_id f (r ∷ rs) =
    (if is_step run_id step_id r then f r else r) ∷ update_steps run_id step_id f rs

-- The reference to the command, where one is written.
abbrev pub reference_known : Option String → Tables → Bool
reference_known none t = true
reference_known (some id) t = command_exists id t.commands

abbrev same_json : Json → Json
same_json v = v

unfoldable pub step_payload : String → ℕ → StepPatch → Json
step_payload step_id attempt p = dict (
    ("step_id", text step_id)
    ∷ ("attempt", number (pos attempt))
    ∷ entry_if "command_id" text p.command_id
        (entry_if "result" same_json p.result (entry_if "error" same_json p.error [])))

abbrev non_empty : Option String → Option String
non_empty none = none
non_empty (some id) = if id == "" then none else some id

-- `command_id or (row["command_id"] if row["command_id"] else None)`: an empty text counts as absent.
abbrev pub event_command : Option String → Option String → Option String
event_command (some id) old = if id == "" then non_empty old else some id
event_command none old = non_empty old

unfoldable pub step_event : MissionStepStatus → String
unfolding step_value
step_event status = "mission_step." ++ step_value status

unfoldable pub write_step_status :
    String → String → MissionStepStatus → StepPatch → ℕ → Action (Unit {0})
unfolding step_payload
write_step_status run_id step_id status p now = do
  found ← gets (λ t. find_step run_id step_id t.mission_steps)
  row ← or_raise found (key_error ("mission step not found: " ++ (run_id ++ ("/" ++ step_id))))
  require (may_step row.status status) (invalid_mission_step_transition row.status status)
  known ← gets (reference_known p.command_id)
  require known (integrity_error "mission_steps")
  modify (λ t. record t {
    mission_steps =
        update_steps run_id step_id (stepped_row status p (next_attempt p row) now) t.mission_steps;
  })
  append_event run_id (event_command p.command_id row.command_id) (step_event status)
      (step_payload step_id (next_attempt p row) p) now

unfoldable pub set_mission_step_status :
    String → String → MissionStepStatus → StepPatch → Action MissionStepRecord
set_mission_step_status run_id step_id status p = do
  now ← utc_now
  transaction (write_step_status run_id step_id status p now)
  require_mission_step run_id step_id
