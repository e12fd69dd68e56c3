-- ===== src/Tests/Steps.antt =====
-- The theorem on mission steps at one step.
use solana_agent.Prelude.{◌≡◌, refl, true, none, some, [], ◌∷◌}
use solana_agent.Contracts.Mission.{MissionStepRecord, may_step, step_eq, mission_step_transitions}
use solana_agent.Contracts.Mission
use solana_agent.Exec.{ok, err, invalid_mission_step_transition, Store, transaction, ◌>>=◌}
use solana_agent.Storage.Events.{append_event, max_sequence, event_fits}
use solana_agent.Storage.Steps.{
  StepPatch, no_step_patch, find_step, update_steps, require_mission_step, write_step_status,
  set_mission_step_status,
}
use solana_agent.Storage.Steps.Changes.{set_mission_step_status-ok, set_mission_step_status-atomic}
use solana_agent.Contracts.Moves.{IsStepMoved}
use solana_agent.Tests.Fixtures.{tables, store}

abbrev step : MissionStepRecord
step = record {
  run_id = "run";
  step_id = "build";
  definition_hash = "#";
  status = Mission.MissionStepStatus.pending;
  attempt = 0;
  command_id = none;
  result = none;
  error = none;
  created_at = 0;
  updated_at = 0;
}

abbrev first_try : StepPatch
first_try = record no_step_patch { increment_attempt = true }

abbrev started : MissionStepRecord
started = record step { status = Mission.MissionStepStatus.running; attempt = 1 }

abbrev with_step : Store
with_step = record store { tables = record tables { mission_steps = step ∷ [] } }

starts :
    (set_mission_step_status "run" "build" Mission.MissionStepStatus.running first_try with_step).0
    ≡ ok started
unfolding set_mission_step_status write_step_status require_mission_step find_step update_steps
    may_step step_eq mission_step_transitions append_event max_sequence event_fits transaction ◌>>=◌
starts = refl

set_mission_step_status-ok_example :
    (row : MissionStepRecord) × (find_step "run" "build" with_step.tables.mission_steps ≡ some row)
    × (may_step row.status Mission.MissionStepStatus.running ≡ true)
    × IsStepMoved Mission.MissionStepStatus.running true none none none 0 row started
    × (find_step "run" "build"
          (set_mission_step_status "run" "build" Mission.MissionStepStatus.running first_try
            with_step).1.tables.mission_steps
        ≡ some started)
set_mission_step_status-ok_example =
    set_mission_step_status-ok "run" "build" Mission.MissionStepStatus.running first_try with_step
      starts

-- A step that was running when its process died cannot be started again.
abbrev broken_step : Store
broken_step = record store { tables = record tables { mission_steps = started ∷ [] } }

restart_refused :
    (set_mission_step_status "run" "build" Mission.MissionStepStatus.running first_try
      broken_step).0
    ≡ err (
        invalid_mission_step_transition Mission.MissionStepStatus.running
          Mission.MissionStepStatus.running)
unfolding set_mission_step_status write_step_status find_step may_step step_eq
    mission_step_transitions transaction ◌>>=◌
restart_refused = refl

set_mission_step_status-atomic_example :
    (set_mission_step_status "run" "build" Mission.MissionStepStatus.running first_try
      broken_step).1.tables
    ≡ broken_step.tables
set_mission_step_status-atomic_example =
    set_mission_step_status-atomic "run" "build" Mission.MissionStepStatus.running first_try
      broken_step restart_refused
