-- ===== src/Execution/Governed/Calls/Once.antt =====
-- The requests that `CommandJournal.execute` makes (solana_agent/execution/journal.py).
use solana_agent.Prelude.{String, ◌≡◌, Option, none, some, inl, inr, Option-cases}
use solana_agent.Contracts.Authority.{PolicyContext, PolicyEffect}
use solana_agent.Contracts.Command.{CommandRecord}
use solana_agent.Exec.{Result, ok, err, Error, integrity_error, catch, ◌>>=◌}
use solana_agent.Exec.Silent.{
  IsSilent, CallsOnce, IsSilent-pure, IsSilent-raise, IsSilent-lift, IsSilent-bind, IsSilent-catch,
  IsSilent-gets, IsSilent-require,
}
use solana_agent.Exec.Yields.{
  Yields-pure, Yields-lift, Yields-then, CallsOnce-silent, CallsOnce-if, CallsOnce-then,
  CallsOnce-from,
}
use solana_agent.Exec.Preserves.{Preserves-bind, Preserves-lift, Preserves-pure}
use solana_agent.Storage.Commands.Work.{HasWork, transition_command-starts}
use solana_agent.Execution.Executor.{ExecutionRequest, Executor}
use solana_agent.Env.{Env}
use solana_agent.Storage.Commands.{find_command_by_idempotency}
use solana_agent.Storage.Quiet.{require_run-IsSilent, transition_command-IsSilent}
use solana_agent.Authority.Inputs.{PolicyEngine}
use solana_agent.Authority.Policy.{evaluate}
use solana_agent.Authority.Approvals.{request}
use solana_agent.Execution.Journal.{
  CommandSpec, CommandJournal, safe_spec, resolved_idempotency_key, PlanOutcome, ValidationDecision,
  plan, plan_new, insert_new, after_conflict, duplicate_or_raise,
}
use solana_agent.Execution.Governed.{
  by_policy, attempt, validation_failed, conclude, execute_planned, execute,
}
use solana_agent.Execution.Governed.Calls.{IsRequestOf, quiet_rules, governed-CallsOnce}
use solana_agent.Execution.Governed.Calls.Decided.{
  allowed_some, governed-IsFinished, tried_silent, tried_finished,
}

abbrev decision_of : Result ValidationDecision → Option PolicyEffect
decision_of (ok d) = some d.decision
decision_of (err e) = none

-- The decision of the policy, where the journal has an engine and the caller gave a context.
abbrev policy_effect :
    Env → Option PolicyEngine → Option PolicyContext → CommandRecord → Option PolicyEffect
policy_effect env none context command = none
policy_effect env (some engine) none command = none
policy_effect env (some engine) (some given) command =
    some (evaluate env engine command given).effect

-- What decides on a command: the validator, the validation given, or the policy.
pub clearance :
    Env
    → CommandJournal
    → Option ValidationDecision
    → Option (CommandRecord → Result ValidationDecision)
    → Option PolicyContext
    → CommandRecord
    → Option PolicyEffect
clearance env journal validation (some validator) context command = decision_of (validator command)
clearance env journal (some given) none context command = some given.decision
clearance env journal none none context command =
    policy_effect env journal.policy_engine context command

-- The request is the one for a command that was allowed.
abbrev pub IsCleared :
    Env
    → CommandJournal
    → Option ValidationDecision
    → Option (CommandRecord → Result ValidationDecision)
    → Option PolicyContext
    → ExecutionRequest
    → Type 0
IsCleared env journal validation validator context request =
    (c : CommandRecord) × IsRequestOf c request
    × (clearance env journal validation validator context c ≡ some PolicyEffect.allow)

after_conflict-IsSilent : (run_id key : String) (e : Error) → IsSilent (after_conflict run_id key e)
unfolding after_conflict find_command_by_idempotency
after_conflict-IsSilent run_id key (integrity_error m) = IsSilent-bind _ _ (IsSilent-gets _) found
  where
    found : (c : Option CommandRecord) → IsSilent (duplicate_or_raise m c)
    found none = IsSilent-raise _
    found (some c) = IsSilent-pure _
after_conflict-IsSilent run_id key _ = IsSilent-raise _

module _ (env : Env) where
  module _ (journal : CommandJournal) (executor : Executor) where
    attempt-CallsOnce :
        (validation : Option ValidationDecision)
        (validator : Option (CommandRecord → Result ValidationDecision))
        (context : Option PolicyContext) (command : CommandRecord)
        → CallsOnce (HasWork command) (IsCleared env journal validation validator context) (
            catch
              (attempt env journal command validation validator context executor)
              (validation_failed env command)
            >>= conclude env command executor)
    unfolding attempt by_policy clearance
    attempt-CallsOnce validation (some validator) context command =
        tried_silent env command executor (decision_of (validator command)) _
          (λ e r same. (command, same, e))
          (IsSilent-bind _ _ (IsSilent-lift (validator command)) λ d. IsSilent-pure _)
          (Preserves-bind _ _ (Preserves-lift (validator command)) λ d. Preserves-pure _)
          (Yields-then {P = λ d. validator command ≡ ok d} _ _ (Yields-lift _ λ d same. same)
            λ d same. Yields-pure _ (rw same (allowed_some d.decision)))
    attempt-CallsOnce (some given) none context command =
        tried_silent env command executor (some given.decision) _ (λ e r same. (command, same, e))
          (IsSilent-pure _) (Preserves-pure _) (Yields-pure _ (allowed_some given.decision))
    attempt-CallsOnce none none context command = elim (Option-cases journal.policy_engine) [
      | inl absent ↦ rw absent (
          tried_silent env command executor none _ (λ e r same. absurd (cc)) (IsSilent-pure _)
            (Preserves-pure _) (Yields-pure _ (λ e. absurd (cc))))
      | inr (engine, present) ↦ rw present (elim (Option-cases context) [
        | inl missing ↦ rw missing (
            tried_silent env command executor none _ (λ e r same. absurd (cc)) (IsSilent-pure _)
              (Preserves-pure _) (Yields-pure _ (λ e. absurd (cc))))
        | inr (given, is) ↦ rw is (
            tried_finished env command executor _
              (governed-CallsOnce env journal.approval_service engine command given executor
                λ allowed r same. (command, same, allowed_some _ allowed))
              (governed-IsFinished env journal.approval_service engine command given executor))
      ])
    ]

    execute_planned-CallsOnce :
        (planned : PlanOutcome) (validation : Option ValidationDecision)
        (validator : Option (CommandRecord → Result ValidationDecision))
        (context : Option PolicyContext)
        → CallsOnce
            (λ t. Unit)
            (IsCleared env journal validation validator context)
            (execute_planned env journal planned validation validator context executor)
    unfolding execute_planned
    execute_planned-CallsOnce planned validation validator context =
        CallsOnce-if _ _ _ (CallsOnce-silent _ (IsSilent-pure _)) (
          CallsOnce-from {R = HasWork} _ _ (transition_command-IsSilent _ _ _)
            (λ s p command returned. transition_command-starts _ _ _ s command returned)
            λ command. attempt-CallsOnce validation validator context command)

    plan-IsSilent : (spec : CommandSpec) → IsSilent (plan env spec)
    unfolding plan plan_new insert_new find_command_by_idempotency
    plan-IsSilent spec =
        IsSilent-bind _ _ (require_run-IsSilent _)
          λ run. IsSilent-bind _ _ (IsSilent-gets _) existing
      where
        existing :
            (c : Option CommandRecord)
            → IsSilent (
                plan_new (safe_spec env spec) (resolved_idempotency_key env (safe_spec env spec)) c)
        existing (some c) = IsSilent-pure _
        existing none = IsSilent-catch _ _ (search quiet_rules) (after_conflict-IsSilent _ _)

    pub execute-CallsOnce :
        (spec : CommandSpec) (validation : Option ValidationDecision)
        (validator : Option (CommandRecord → Result ValidationDecision))
        (context : Option PolicyContext)
        → CallsOnce
            (λ t. Unit)
            (IsCleared env journal validation validator context)
            (execute env journal spec executor validation validator context)
    unfolding execute
    execute-CallsOnce spec validation validator context =
        CallsOnce-then _ _ (IsSilent-require _ _) (record { at = λ s p. tt })
          λ _.
            CallsOnce-then _ _ (plan-IsSilent spec) (record { at = λ s p. tt })
              λ planned. execute_planned-CallsOnce planned validation validator context
