-- ===== src/Execution/Executor.antt =====
-- solana_agent/execution/executor.py. An executor is code of an adapter: what it answers to a request
-- is a parameter of the model, and `FakeExecutor.requests` is the list of calls that the store keeps.
use solana_agent.Prelude.{String}
use solana_agent.Prelude.Int.{ℤ}
use solana_agent.Json.{Json}

pub record ExecutionRequest : Type 0 where
  pub command_id : String
  pub adapter : String
  pub operation : String
  pub arguments : Json
  pub cwd : String
  pub timeout_seconds : ℤ

pub record ExecutionResult : Type 0 where
  pub exit_code : ℤ
  pub stdout : String
  pub stderr : String
  pub metadata : Json

-- How a call ends: a result, `CommandTimedOut`, `CommandInterrupted`, or another exception with the
-- name of its type and its text.
pub data ExecutorAnswer : Type 0 where
  returned : ExecutionResult → ExecutorAnswer
  command_timed_out : String → String → String → ExecutorAnswer
  command_interrupted : String → String → String → ExecutorAnswer
  raised : String → String → ExecutorAnswer

abbrev pub Executor : Type 0
Executor = ExecutionRequest → ExecutorAnswer
