-- ===== src/Execution/Governed/Approved.antt =====
-- `CommandJournal.execute_approved` and `recover_orphaned_commands`
-- (solana_agent/execution/journal.py).
use solana_agent.Prelude.{String, false, Option, none, some, List, [], ◌∷◌}
use solana_agent.Prelude.Int.{ℤ}
use solana_agent.Json.{end, field, text}
use solana_agent.Contracts.Authority.{ApprovalRecord}
use solana_agent.Contracts.Command.{
  CommandRecord, approval_required, authorized, rejected, interrupted, status_eq,
}
use solana_agent.Exec.{
  Error, Action, approval_error, value_error, pure, raise, catch, require, ◌>>=◌, ◌>>◌,
}
use solana_agent.Execution.Executor.{Executor}
use solana_agent.Env.{Env}
use solana_agent.Storage.Commands.{
  require_command, transition_command, list_running_commands, no_patch,
}
use solana_agent.Authority.Approvals.{consume, expire_pending}
use solana_agent.Execution.Journal.{CommandJournal, PlanOutcome, outcome, coded}
use solana_agent.Execution.Journal.Run.{execute_authorized}

-- `except ApprovalError`: any other exception goes on to the caller.
abbrev pub approval_fault : (Error → String) → Error → Option String
approval_fault str (approval_error m) = some (str (approval_error m))
approval_fault str _ = none

-- What `try: approval = consume(...)` leads to.
pub data Consumed : Type 0 where
  usable : ApprovalRecord → Consumed
  invalid : String → Consumed

module _ (env : Env) where
  abbrev reject_with : CommandRecord → String → String → Action PlanOutcome
  reject_with command code message = do
    moved ←
        transition_command command.id rejected
          (record no_patch { error = some (coded code message) })
    pure (outcome moved false)

  abbrev pub failed_consume : Error → Action Consumed
  failed_consume e = elim (approval_fault env.error_text e) [
    | none ↦ raise e
    | some message ↦ pure (invalid message)
  ]

  abbrev usable_of : ApprovalRecord → Action Consumed
  usable_of approval = pure (usable approval)

  unfoldable pub try_consume : String → CommandRecord → Action Consumed
  try_consume id command = catch (consume env id command >>= usable_of) failed_consume

  unfoldable pub run_approved : CommandRecord → Executor → Consumed → Action PlanOutcome
  run_approved command executor (invalid message) = reject_with command "approval_invalid" message
  run_approved command executor (usable approval) = do
    moved ← transition_command command.id authorized (record no_patch {
      payload =
          field "approval_id" (text approval.id)
            (field "manifest_hash" (text approval.manifest_hash) end);
      policy_decision = some "allow";
      policy_reason = some "bound operator approval validated and consumed";
      approval_id = some approval.id;
    })
    execute_authorized env moved executor

  -- The approval of a command, where the journal has a service and the command a request.
  abbrev pub service_and_request : Option ℤ → Option String → Option String
  service_and_request none request = none
  service_and_request (some ttl) request = request

  unfoldable pub with_request : CommandRecord → Executor → Option String → Action PlanOutcome
  unfolding try_consume run_approved
  with_request command executor none =
      reject_with command "approval_unavailable" "approval service or request is missing"
  with_request command executor (some id) = do
    consumed ← try_consume id command
    run_approved command executor consumed

  unfoldable pub execute_approved : CommandJournal → String → Executor → Action PlanOutcome
  unfolding with_request
  execute_approved journal command_id executor = do
    command ← require_command command_id
    require (status_eq command.status approval_required)
        (value_error "command is not awaiting approval")
    with_request command executor (service_and_request journal.approval_service command.approval_id)

-- `recover_orphaned_commands`
unfoldable pub interrupt_each : String → List CommandRecord → Action (List CommandRecord)
interrupt_each reason [] = pure []
interrupt_each reason (c ∷ cs) = do
  moved ←
      transition_command c.id interrupted
        (record no_patch { error = some (coded "orphaned_command" reason) })
  rest ← interrupt_each reason cs
  pure (moved ∷ rest)

abbrev pub expire_first : Option ℤ → Action (Unit {0})
expire_first none = pure tt
expire_first (some ttl) = do expired ← expire_pending; pure tt

unfoldable pub recover_orphaned_commands : CommandJournal → String → Action (List CommandRecord)
unfolding interrupt_each
recover_orphaned_commands journal reason = do
  _ ← expire_first journal.approval_service
  commands ← list_running_commands
  interrupt_each reason commands
