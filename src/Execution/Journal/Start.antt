-- ===== src/Execution/Journal/Start.antt =====
-- `CommandJournal.create_run` (solana_agent/execution/journal.py).
use solana_agent.Prelude.{String, ◌==◌, Option, none, some, if◌then◌else◌}
use solana_agent.Json.{Json}
use solana_agent.Contracts.Lifecycle.{RunRecord}
use solana_agent.Exec.{Action, pure, fresh_id, ◌>>=◌}
use solana_agent.Env.{Env}
use solana_agent.Storage.Runs
use solana_agent.Authority.Inputs.{PolicyEngine}
use solana_agent.Authority.Policy.Snapshot.{snapshot}
use solana_agent.Execution.Journal.{CommandJournal}

abbrev taken_snapshot : Env → Option PolicyEngine → Option Json
taken_snapshot env none = none
taken_snapshot env (some engine) = some (snapshot env engine)

-- `run_id or f"run-{uuid.uuid4().hex}"`
unfoldable pub named_run : Option String → Action String
named_run none = fresh_id "run-"
named_run (some id) = if id == "" then fresh_id "run-" else pure id

unfoldable pub create_run : Env → CommandJournal → String → Option String → Json → Action RunRecord
create_run env journal mission_id run_id metadata = do
  id ← named_run run_id
  Runs.create_run id mission_id metadata (taken_snapshot env journal.policy_engine)
