-- ===== src/Execution/Journal/Run.antt =====
-- The rest of `CommandJournal` (solana_agent/execution/journal.py): from a decision to the record of
-- what the executor answered.
use solana_agent.Prelude.{String, false, some, List, [], ◌∷◌, if◌then◌else◌}
use Prim.Native.String.{◌++◌}
use solana_agent.Prelude.Int.{pos, eq_ℤ, int_text}
use solana_agent.Json.{Json, Fields, text, dict, fields, array_of, texts}
use solana_agent.Contracts.Authority.{PolicyDecisionRecord, ApprovalRecord, risk_value}
use solana_agent.Contracts.Command.{
  CommandRecord, CommandStatus, running, succeeded, failed, interrupted, timed_out,
}
use solana_agent.Exec.{Action, pure, call, ◌>>=◌}
use solana_agent.Execution.Executor.{
  ExecutionRequest, ExecutionResult, ExecutorAnswer, Executor, returned, command_timed_out,
  command_interrupted, raised,
}
use solana_agent.Env.{Env}
use solana_agent.Storage.Commands.{transition_command, no_patch}
use solana_agent.Storage.Artifacts.{create_artifact}
use solana_agent.Authority.Redaction.{redact_mapping, redact_text}
use solana_agent.Execution.Journal.{PlanOutcome, outcome, coded}

abbrev pub decision_entries : PolicyDecisionRecord → List (String × Json) → Fields
decision_entries record' more = fields (
    ("policy_decision_id", text record'.id)
    ∷ ("rule_id", text record'.rule_id)
    ∷ ("policy_version", text record'.policy_version)
    ∷ ("risk", text (risk_value record'.risk))
    ∷ ("input_hash", text record'.input_hash)
    ∷ ("required_evidence", array_of (texts record'.required_evidence))
    ∷ more)

abbrev pub approval_entries : ApprovalRecord → List (String × Json)
approval_entries a =
    ("approval_id", text a.id) ∷ ("approval_manifest_hash", text a.manifest_hash) ∷ []

module _ (env : Env) where
  unfoldable pub record_streams : CommandRecord → String → String → Action (String × String)
  record_streams command stdout stderr = do
    out ←
        create_artifact env.sha256_hex command.run_id (some command.id) "stdout"
          (redact_text env stdout)
    err_ ←
        create_artifact env.sha256_hex command.run_id (some command.id) "stderr"
          (redact_text env stderr)
    pure (out.id, err_.id)

  unfoldable pub record_result : CommandRecord → ExecutionResult → Action CommandRecord
  record_result command result = do
    ids ← record_streams command result.stdout result.stderr
    let safe = dict (("metadata", redact_mapping env result.metadata) ∷ [])
    if eq_ℤ result.exit_code (pos 0)
        then transition_command command.id succeeded (record no_patch {
          exit_code = some result.exit_code;
          result = some safe;
          stdout_artifact_id = some ids.0;
          stderr_artifact_id = some ids.1;
        })
        else transition_command command.id failed (record no_patch {
          exit_code = some result.exit_code;
          result = some safe;
          error =
              some
                (coded "nonzero_exit" ("executor exited with code " ++ int_text result.exit_code));
          stdout_artifact_id = some ids.0;
          stderr_artifact_id = some ids.1;
        })

  unfoldable pub record_stop :
      CommandRecord → CommandStatus → String → String → String → String → Action CommandRecord
  record_stop command target code message stdout stderr = do
    ids ← record_streams command stdout stderr
    transition_command command.id target (record no_patch {
      error = some (coded code (redact_text env message));
      stdout_artifact_id = some ids.0;
      stderr_artifact_id = some ids.1;
    })

  unfoldable pub record_exception : CommandRecord → String → String → Action CommandRecord
  record_exception command type_name message = do
    ids ← record_streams command "" ""
    transition_command command.id failed (record no_patch {
      error = some (
          dict (
            ("code", text "executor_exception")
            ∷ ("message", text (redact_text env message))
            ∷ ("type", text type_name)
            ∷ []));
      stdout_artifact_id = some ids.0;
      stderr_artifact_id = some ids.1;
    })

  -- The handlers of `_execute_authorized`.
  unfoldable pub record_answer : CommandRecord → ExecutorAnswer → Action CommandRecord
  record_answer command (returned result) = record_result command result
  record_answer command (command_timed_out message stdout stderr) =
      record_stop command timed_out "command_timed_out" message stdout stderr
  record_answer command (command_interrupted message stdout stderr) =
      record_stop command interrupted "command_interrupted" message stdout stderr
  record_answer command (raised type_name message) = record_exception command type_name message

  abbrev pub request_of : CommandRecord → ExecutionRequest
  request_of command = record {
    command_id = command.id;
    adapter = command.adapter;
    operation = command.operation;
    arguments = command.arguments;
    cwd = command.cwd;
    timeout_seconds = command.timeout_seconds;
  }

  unfoldable pub execute_authorized : CommandRecord → Executor → Action PlanOutcome
  execute_authorized command executor = do
    started ← transition_command command.id running no_patch
    answer ← call executor (request_of started)
    finished ← record_answer started answer
    pure (outcome finished false)
