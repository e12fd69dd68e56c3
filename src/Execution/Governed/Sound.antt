-- ===== src/Execution/Governed/Sound.antt =====
-- What the methods of `CommandJournal` that run commands leave behind
-- (solana_agent/execution/journal.py).
use solana_agent.Prelude.{String, Option, ◌∷◌, ◌≡◌, ◌⊎◌}
use solana_agent.Contracts.Authority.{PolicyContext}
use solana_agent.Contracts.Command.{CommandRecord}
use solana_agent.Exec.{Result, Store}
use solana_agent.Execution.Executor.{ExecutionRequest, Executor}
use solana_agent.Env.{Env}
use solana_agent.Storage.Journaled.{IsJournaled}
use solana_agent.Execution.Journal.{CommandSpec, CommandJournal, ValidationDecision}
use solana_agent.Execution.Governed.{execute}
use solana_agent.Execution.Governed.Approved.{execute_approved, recover_orphaned_commands}
use solana_agent.Execution.Governed.Calls.Once.{IsCleared, execute-CallsOnce}
use solana_agent.Execution.Governed.Journaled.{
  Preserves-execute, Preserves-execute_approved, Preserves-recover,
}

module _ (env : Env) (journal : CommandJournal) where
  module _ (spec : CommandSpec) (executor : Executor) (validation : Option ValidationDecision)
      (validator : Option (CommandRecord → Result ValidationDecision))
      (context : Option PolicyContext) (s : Store) where
    -- `execute` calls its executor at most once, and only with the request of a command (its identifier,
    -- adapter, operation, arguments, directory and time limit) that was allowed: by the validator if there is one, or else by the validation given, or else by the
    -- policy of the journal in the context given. Without any of these it makes no call.
    pub execute-calls :
        let after = (execute env journal spec executor validation validator context s).1 in
        (after.calls ≡ s.calls)
        ⊎ ((r : ExecutionRequest) × IsCleared env journal validation validator context r
            × (after.calls ≡ r ∷ s.calls))
    execute-calls =
        (execute-CallsOnce env journal executor spec validation validator context).at s tt

    -- From tables whose events are numbered run by run and tell the status of every command, `execute`
    -- leads to such tables, whatever the policy, the validator, the approval service and the executor
    -- answer, and whether it returns or raises.
    pub execute-IsJournaled :
        IsJournaled s.tables
        → IsJournaled (execute env journal spec executor validation validator context s).1.tables
    execute-IsJournaled h =
        (Preserves-execute env journal spec executor validation validator context).at s h

  -- `execute_approved` keeps the same invariant, on every one of its branches.
  pub execute_approved-IsJournaled :
      (command_id : String) (executor : Executor) (s : Store)
      → IsJournaled s.tables
      → IsJournaled (execute_approved env journal command_id executor s).1.tables
  execute_approved-IsJournaled command_id executor s h =
      (Preserves-execute_approved env journal command_id executor).at s h

-- The recovery at a restart keeps the same invariant, also where it stops in the middle.
pub recover-IsJournaled :
    (journal : CommandJournal) (reason : String) (s : Store)
    → IsJournaled s.tables
    → IsJournaled (recover_orphaned_commands journal reason s).1.tables
recover-IsJournaled journal reason s h = (Preserves-recover journal reason).at s h
