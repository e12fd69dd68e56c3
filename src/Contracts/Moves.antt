-- ===== src/Contracts/Moves.antt =====
-- What a change of status leaves in a row of `commands` and of `mission_steps`
-- (solana_agent/storage/repositories.py), column by column.
use solana_agent.Prelude.{ℕ, suc, String, ◌≡◌, Option, none, some, Bool, true, false}
use solana_agent.Json.{Json}
use solana_agent.Contracts.Command.{CommandStatus, CommandRecord, running, may_transition}
use solana_agent.Contracts.Mission.{MissionStepStatus, MissionStepRecord}

-- A column takes the given value, and where none is given it stays.
pub record IsKept {A : Type 0} (given old new : Option A) : Type 0 where
  pub stays : given ≡ none → new ≡ old
  pub moves : (a : A) → given ≡ some a → new ≡ some a

-- The columns that say what is to be run.
pub record IsSameWork (c d : CommandRecord) : Type 0 where
  pub id : d.id ≡ c.id
  pub adapter : d.adapter ≡ c.adapter
  pub operation : d.operation ≡ c.operation
  pub arguments : d.arguments ≡ c.arguments
  pub cwd : d.cwd ≡ c.cwd
  pub timeout_seconds : d.timeout_seconds ≡ c.timeout_seconds

-- The other columns that a command has from its plan.
pub record IsSamePlan (c d : CommandRecord) : Type 0 where
  pub run_id : d.run_id ≡ c.run_id
  pub step_id : d.step_id ≡ c.step_id
  pub idempotency_key : d.idempotency_key ≡ c.idempotency_key
  pub expected_state : d.expected_state ≡ c.expected_state
  pub created_at : d.created_at ≡ c.created_at

-- The row has the target and the time; `started_at` is the time of a move to running, and `finished_at`
-- that of a move to a status that no move leaves.
pub record IsMoved (target : CommandStatus) (now : ℕ) (c d : CommandRecord) : Type 0 where
  pub work : IsSameWork c d
  pub plan : IsSamePlan c d
  pub status : d.status ≡ target
  pub updated_at : d.updated_at ≡ now
  pub started : target ≡ running → d.started_at ≡ some now
  pub not_started : (target ≡ running → ⊥) → d.started_at ≡ c.started_at
  pub finished :
      ((next : CommandStatus) → may_transition target next ≡ false) → d.finished_at ≡ some now
  pub not_finished :
      (next : CommandStatus) → may_transition target next ≡ true → d.finished_at ≡ c.finished_at

-- One attempt more exactly where the caller asked for it; the result and the error are the given ones,
-- also where none is given.
pub record IsStepMoved (target : MissionStepStatus) (more : Bool) (command_id : Option String)
    (given_result given_error : Option Json) (now : ℕ) (r s : MissionStepRecord) : Type 0 where
  pub run_id : s.run_id ≡ r.run_id
  pub step_id : s.step_id ≡ r.step_id
  pub definition_hash : s.definition_hash ≡ r.definition_hash
  pub created_at : s.created_at ≡ r.created_at
  pub status : s.status ≡ target
  pub attempted : more ≡ true → s.attempt ≡ suc r.attempt
  pub not_attempted : more ≡ false → s.attempt ≡ r.attempt
  pub command : IsKept command_id r.command_id s.command_id
  pub result : s.result ≡ given_result
  pub error : s.error ≡ given_error
  pub updated_at : s.updated_at ≡ now
