-- ===== src/Exec.antt =====
-- Python methods over the journal's database: state, exceptions, the clock and fresh identifiers.
-- What a method wrote before it raised stays written, except inside a transaction.
pub mod Preserves
pub mod Inversion
pub mod Silent
pub mod Yields
use solana_agent.Prelude.{
  ℕ, suc, ◌+◌, ◌/◌, String, List, ◌∷◌, Option, none, some, Bool, true, false,
}
use Prim.Native.String.{◌++◌}
use solana_agent.Contracts.Command.{CommandStatus}
use solana_agent.Contracts.Mission.{MissionStepStatus}
use solana_agent.Execution.Executor.{ExecutionRequest, ExecutorAnswer, Executor}
use solana_agent.Storage.Tables.{Tables}

pub data Error : Type 0 where
  key_error value_error integrity_error approval_error : String → Error
  mission_graph_error mission_execution_error template_resolution_error : String → Error
  invalid_command_transition : CommandStatus → CommandStatus → Error
  invalid_mission_step_transition : MissionStepStatus → MissionStepStatus → Error

-- `type(exc).__name__`
pub error_type : Error → String
error_type (key_error _) = "KeyError"
error_type (value_error _) = "ValueError"
error_type (integrity_error _) = "IntegrityError"
error_type (approval_error _) = "ApprovalError"
error_type (mission_graph_error _) = "MissionGraphError"
error_type (mission_execution_error _) = "MissionExecutionError"
error_type (template_resolution_error _) = "TemplateResolutionError"
error_type (invalid_command_transition _ _) = "InvalidCommandTransition"
error_type (invalid_mission_step_transition _ _) = "InvalidMissionStepTransition"

pub data Result {ℓ} (A : Type ℓ) : Type ℓ where
  ok : A → Result A
  err : Error → Result A

-- `clock n` is the time, in microseconds, that the n-th next reading of the clock gives, `uuids n`
-- the n-th next `uuid.uuid4().hex`, and `calls` the requests that executors have had, newest first.
pub record Store : Type 0 where
  pub tables : Tables
  pub clock : ℕ → ℕ
  pub uuids : ℕ → String
  pub calls : List ExecutionRequest

abbrev pub Action : Type 0 → Type 0
Action A = Store → Result A × Store

module _ {A : Type 0} where
  pub pure : A → Action A
  pure a s = (ok a, s)

  pub raise : Error → Action A
  raise e s = (err e, s)

  pub lift : Result A → Action A
  lift r s = (r, s)

  pub or_raise : Option A → Error → Action A
  or_raise none e s = (err e, s)
  or_raise (some a) e s = (ok a, s)

  pub gets : (Tables → A) → Action A
  gets f s = (ok (f s.tables), s)

  -- `except Exception as exc: handler(exc)`; what the failed part wrote outside a transaction stays
  abbrev pub handle : (Error → Action A) → Result A × Store → Result A × Store
  handle h (ok a, s) = (ok a, s)
  handle h (err e, s) = h e s

  pub catch : Action A → (Error → Action A) → Action A
  catch m h s = handle h (m s)

  -- `with database.transaction()`: commit, or roll back and raise
  abbrev pub settle : Tables → Result A × Store → Result A × Store
  settle before (ok a, s) = (ok a, s)
  settle before (err e, s) = (err e, record s { tables = before })

  unfoldable pub transaction : Action A → Action A
  transaction m s = settle s.tables (m s)

-- The guard of a `raise`.
pub require : Bool → Error → Action (Unit {0})
require true e s = (ok tt, s)
require false e s = (err e, s)

pub modify : (Tables → Tables) → Action (Unit {0})
modify f s = (ok tt, record s { tables = f s.tables })

-- `datetime.now(UTC)`
pub read_clock : Action ℕ
read_clock s = (ok (s.clock 0), record s { clock = λ n. s.clock (suc n) })

-- `utc_now()`: whole seconds. The ISO texts of one format are ordered as the times are.
abbrev pub whole_seconds : ℕ → ℕ
whole_seconds micros = micros / 1000000

pub utc_now : Action ℕ
unfolding read_clock
utc_now s = (ok (whole_seconds (s.clock 0)), record s { clock = λ n. s.clock (suc n) })

-- `f"{prefix}-{uuid.uuid4().hex}"`
pub fresh_id : String → Action String
fresh_id prefix s = (ok (prefix ++ s.uuids 0), record s { uuids = λ n. s.uuids (suc n) })

infixl 5 ◌>>=◌ ◌>>◌
abbrev pub after : {A B : Type 0} → (A → Action B) → Result A × Store → Result B × Store
after f (ok a, s) = f a s
after f (err e, s) = (err e, s)

-- Opening the bind opens the actions above and the clock with it.
unfoldable pub ◌>>=◌ : {A B : Type 0} → Action A → (A → Action B) → Action B
unfolding pure raise lift or_raise gets catch require modify read_clock utc_now fresh_id
◌>>=◌ m f s = after f (m s)

abbrev pub ◌>>◌ : {A B : Type 0} → Action A → Action B → Action B
m >> k = m >>= λ _. k

pub call : Executor → ExecutionRequest → Action ExecutorAnswer
call executor request s = (ok (executor request), record s { calls = request ∷ s.calls })
