-- ===== src/Execution/Governed/Journaled.antt =====
-- The invariant of the journal and `CommandJournal` (solana_agent/execution/journal.py).
use solana_agent.Prelude.{String, inl, inr, Option-cases, Option, none, some, List, [], ◌∷◌}
use solana_agent.Prelude.Int.{ℤ}
use solana_agent.Contracts.Authority.{
  PolicyContext, PolicyDecision, PolicyDecisionRecord, PolicyEffect,
}
use solana_agent.Contracts.Command.{CommandRecord, interrupted}
use solana_agent.Exec.{Result, Error, integrity_error, approval_error}
use solana_agent.Exec.Preserves.{
  Preserves, Preserves-catch, Preserves-bind, Preserves-pure, Preserves-raise, Preserves-gets,
  Preserves-lift, preserving,
}
use solana_agent.Execution.Executor.{Executor, ExecutorAnswer, ExecutionResult}
use solana_agent.Execution.Executor
use solana_agent.Env.{Env}
use solana_agent.Storage.Commands.{
  require_command, list_running_commands, find_command_by_idempotency,
}
use solana_agent.Storage.Runs.{require_run}
use solana_agent.Storage.Journaled.{
  IsJournaled, transition_command-IsJournaled, insert_planned_command-IsJournaled,
}
use solana_agent.Storage.Journaled.Operations.{
  create_policy_decision-IsJournaled, create_artifact-IsJournaled,
}
use solana_agent.Authority.Approvals.Journaled.{
  request-IsJournaled, consume-IsJournaled, expire_pending-IsJournaled,
}
use solana_agent.Authority.Inputs.{PolicyEngine}
use solana_agent.Execution.Journal.{
  CommandSpec, CommandJournal, PlanOutcome, ValidationDecision, plan, plan_new, insert_new,
  after_conflict, duplicate_or_raise, apply_validation_decision,
}
use solana_agent.Execution.Journal.Run.{
  record_streams, record_result, record_stop, record_exception, record_answer, execute_authorized,
}
use solana_agent.Execution.Governed.{
  Attempt, ask_approval, apply_effect, apply_policy_decision, governed, by_policy, attempt,
  validation_failed, conclude, execute_planned, execute, decided, finished,
}
use solana_agent.Execution.Governed.Approved.{
  Consumed, usable, invalid, failed_consume, try_consume, run_approved, with_request,
  execute_approved, expire_first, interrupt_each, recover_orphaned_commands,
}

ruleset run_rules = (
  preserving, Preserves-catch, transition_command-IsJournaled, insert_planned_command-IsJournaled,
  create_policy_decision-IsJournaled, create_artifact-IsJournaled, request-IsJournaled,
  consume-IsJournaled, expire_pending-IsJournaled,
)

after_conflict-IsJournaled :
    (run_id key : String) (e : Error) → Preserves IsJournaled (after_conflict run_id key e)
unfolding after_conflict find_command_by_idempotency
after_conflict-IsJournaled run_id key (integrity_error m) =
    Preserves-bind _ _ (Preserves-gets _) found
  where
    found : (c : Option CommandRecord) → Preserves IsJournaled (duplicate_or_raise m c)
    found none = Preserves-raise _
    found (some c) = Preserves-pure _
after_conflict-IsJournaled run_id key _ = Preserves-raise _

module _ (env : Env) where
  record_answer-IsJournaled :
      (command : CommandRecord) (answer : ExecutorAnswer)
      → Preserves IsJournaled (record_answer env command answer)
  unfolding record_answer record_result record_stop record_exception record_streams
  record_answer-IsJournaled command (Executor.returned result) = search run_rules depth 16
  record_answer-IsJournaled command (Executor.command_timed_out m o e) = search run_rules depth 16
  record_answer-IsJournaled command (Executor.command_interrupted m o e) = search run_rules depth 16
  record_answer-IsJournaled command (Executor.raised t m) = search run_rules depth 16

  execute_authorized-IsJournaled :
      (command : CommandRecord) (executor : Executor)
      → Preserves IsJournaled (execute_authorized env command executor)
  unfolding execute_authorized
  execute_authorized-IsJournaled command executor =
      search (run_rules, record_answer-IsJournaled) depth 12

  plan_new-IsJournaled :
      (spec : CommandSpec) (key : String) (existing : Option CommandRecord)
      → Preserves IsJournaled (plan_new spec key existing)
  unfolding plan_new insert_new
  plan_new-IsJournaled spec key (some existing) = search run_rules
  plan_new-IsJournaled spec key none =
      Preserves-catch _ _ (search run_rules depth 12) (after_conflict-IsJournaled spec.run_id key)

  pub plan-IsJournaled : (spec : CommandSpec) → Preserves IsJournaled (plan env spec)
  unfolding plan require_run find_command_by_idempotency
  plan-IsJournaled spec = search (run_rules, plan_new-IsJournaled) depth 12

  apply_effect-IsJournaled :
      (service : Option ℤ) (command : CommandRecord) (decision : PolicyDecision)
      (saved : PolicyDecisionRecord) (effect : PolicyEffect)
      → Preserves IsJournaled (apply_effect env service command decision saved effect)
  unfolding apply_effect ask_approval
  apply_effect-IsJournaled service command decision saved PolicyEffect.deny = search run_rules
  apply_effect-IsJournaled service command decision saved PolicyEffect.allow = search run_rules
  apply_effect-IsJournaled none command decision saved PolicyEffect.require_approval =
      search run_rules
  apply_effect-IsJournaled (some ttl) command decision saved PolicyEffect.require_approval =
      search run_rules

  governed-IsJournaled :
      (service : Option ℤ) (engine : PolicyEngine) (command : CommandRecord)
      (context : PolicyContext) (executor : Executor)
      → Preserves IsJournaled (governed env service engine command context executor)
  unfolding governed apply_policy_decision
  governed-IsJournaled service engine command context executor =
      search (run_rules, apply_effect-IsJournaled, execute_authorized-IsJournaled) depth 14

  by_policy-IsJournaled :
      (journal : CommandJournal) (command : CommandRecord) (context : Option PolicyContext)
      (executor : Executor)
      → Preserves IsJournaled (by_policy env journal command context executor)
  unfolding by_policy
  by_policy-IsJournaled journal command context executor =
      elim (Option-cases journal.policy_engine) [
        | inl absent ↦ rw absent (Preserves-pure _)
        | inr (engine, present) ↦ rw present (elim (Option-cases context) [
          | inl missing ↦ rw missing (Preserves-pure _)
          | inr (given, is) ↦
              rw is (governed-IsJournaled journal.approval_service engine command given executor)
        ])
      ]

  attempt-IsJournaled :
      (journal : CommandJournal) (command : CommandRecord) (validation : Option ValidationDecision)
      (validator : Option (CommandRecord → Result ValidationDecision))
      (context : Option PolicyContext) (executor : Executor)
      → Preserves IsJournaled (attempt env journal command validation validator context executor)
  unfolding attempt
  attempt-IsJournaled journal command validation (some validator) context executor =
      Preserves-bind _ _ (Preserves-lift (validator command)) λ _. Preserves-pure _
  attempt-IsJournaled journal command (some validation) none context executor = Preserves-pure _
  attempt-IsJournaled journal command none none context executor =
      by_policy-IsJournaled journal command context executor

  apply_validation_decision-IsJournaled :
      (command : CommandRecord) (d : ValidationDecision)
      → Preserves IsJournaled (apply_validation_decision env command d)
  unfolding apply_validation_decision
  apply_validation_decision-IsJournaled command d = by_effect d.decision
    where
      by_effect :
          (e : PolicyEffect)
          → Preserves IsJournaled
              (apply_validation_decision env command (record d { decision = e }))
      by_effect PolicyEffect.deny = search run_rules
      by_effect PolicyEffect.require_approval = search run_rules
      by_effect PolicyEffect.allow = search run_rules

  conclude-IsJournaled :
      (command : CommandRecord) (executor : Executor) (tried : Attempt)
      → Preserves IsJournaled (conclude env command executor tried)
  unfolding conclude
  conclude-IsJournaled command executor (finished done) = Preserves-pure done
  conclude-IsJournaled command executor (decided decision) =
      search (run_rules, apply_validation_decision-IsJournaled, execute_authorized-IsJournaled)
        depth 12

  validation_failed-IsJournaled :
      (command : CommandRecord) (e : Error)
      → Preserves IsJournaled (validation_failed env command e)
  unfolding validation_failed
  validation_failed-IsJournaled command e = search run_rules depth 12

  execute_planned-IsJournaled :
      (journal : CommandJournal) (planned : PlanOutcome) (validation : Option ValidationDecision)
      (validator : Option (CommandRecord → Result ValidationDecision))
      (context : Option PolicyContext) (executor : Executor)
      → Preserves IsJournaled
          (execute_planned env journal planned validation validator context executor)
  unfolding execute_planned
  execute_planned-IsJournaled journal planned validation validator context executor =
      search (run_rules, attempt-IsJournaled, validation_failed-IsJournaled, conclude-IsJournaled)
        depth 14

  pub Preserves-execute :
      (journal : CommandJournal) (spec : CommandSpec) (executor : Executor)
      (validation : Option ValidationDecision)
      (validator : Option (CommandRecord → Result ValidationDecision))
      (context : Option PolicyContext)
      → Preserves IsJournaled (execute env journal spec executor validation validator context)
  unfolding execute
  Preserves-execute journal spec executor validation validator context =
      search (run_rules, plan-IsJournaled, execute_planned-IsJournaled) depth 14

  with_request-IsJournaled :
      (command : CommandRecord) (executor : Executor) (request : Option String)
      → Preserves IsJournaled (with_request env command executor request)
  unfolding with_request try_consume run_approved
  with_request-IsJournaled command executor none = search run_rules
  with_request-IsJournaled command executor (some id) =
      Preserves-bind _ _ (Preserves-catch _ _ (search run_rules) failed) after
    where
      failed : (e : Error) → Preserves IsJournaled (failed_consume env e)
      failed (approval_error m) = Preserves-pure _
      failed _ = Preserves-raise _

      after : (c : Consumed) → Preserves IsJournaled (run_approved env command executor c)
      after (usable approval) = search (run_rules, execute_authorized-IsJournaled) depth 12
      after (invalid message) = search run_rules

  pub Preserves-execute_approved :
      (journal : CommandJournal) (command_id : String) (executor : Executor)
      → Preserves IsJournaled (execute_approved env journal command_id executor)
  unfolding execute_approved require_command
  Preserves-execute_approved journal command_id executor =
      search (run_rules, with_request-IsJournaled) depth 12

interrupt_each-IsJournaled :
    (reason : String) (cs : List CommandRecord) → Preserves IsJournaled (interrupt_each reason cs)
unfolding interrupt_each
interrupt_each-IsJournaled reason [] = Preserves-pure []
interrupt_each-IsJournaled reason (c ∷ cs) =
    Preserves-bind _ _ (transition_command-IsJournaled c.id interrupted _)
      λ moved. Preserves-bind _ _ (interrupt_each-IsJournaled reason cs) λ rest. Preserves-pure _

pub Preserves-recover :
    (journal : CommandJournal) (reason : String)
    → Preserves IsJournaled (recover_orphaned_commands journal reason)
unfolding recover_orphaned_commands list_running_commands
Preserves-recover journal reason =
    Preserves-bind _ _ (first journal.approval_service)
      λ _. search (run_rules, interrupt_each-IsJournaled)
  where
    first : (service : Option ℤ) → Preserves IsJournaled (expire_first service)
    first none = Preserves-pure _
    first (some ttl) = search run_rules
