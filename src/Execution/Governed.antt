-- ===== src/Execution/Governed.antt =====
-- `CommandJournal.execute` (solana_agent/execution/journal.py).
pub mod Journaled
pub mod Approved
pub mod Calls
pub mod Sound
use solana_agent.Prelude.{
  String, Bool, true, false, not, ◌&&◌, ◌||◌, Option, none, some, List, [], ◌∷◌, if◌then◌else◌,
}
use solana_agent.Prelude.Int.{ℤ}
use solana_agent.Json.{Json, end, field, text, dict}
use solana_agent.Contracts.Authority.{
  PolicyContext, PolicyDecision, PolicyDecisionRecord, PolicyEffect, ApprovalRecord,
}
use solana_agent.Contracts.Command.{
  CommandRecord, CommandStatus, validating, approval_required, authorized, failed, rejected,
  interrupted, status_eq,
}
use solana_agent.Exec.{
  Error, Result, Action, ok, err, approval_error, value_error, error_type, pure, raise, lift, catch,
  require, ◌>>=◌, ◌>>◌,
}
use solana_agent.Execution.Executor.{Executor}
use solana_agent.Env.{Env}
use solana_agent.Storage.Commands.{
  require_command, transition_command, list_running_commands, no_patch,
}
use solana_agent.Storage.Approvals.{create_policy_decision}
use solana_agent.Authority.Redaction.{redact_text}
use solana_agent.Authority.Inputs.{PolicyEngine}
use solana_agent.Authority.Policy.{evaluate}
use solana_agent.Authority.Approvals.{request, consume, expire_pending}
use solana_agent.Execution.Journal.{
  CommandSpec, CommandJournal, PlanOutcome, ValidationDecision, outcome, coded, plan,
  apply_validation_decision,
}
use solana_agent.Execution.Journal.Run.{decision_entries, approval_entries, execute_authorized}

-- `command.status in {REJECTED, APPROVAL_REQUIRED}`
abbrev pub is_held : CommandStatus → Bool
is_held rejected = true
is_held approval_required = true
is_held _ = false

abbrev is_some {ℓ} : {A : Type ℓ} → Option A → Bool
is_some none = false
is_some (some _) = true

-- What the `try` block of `execute` leads to: a decision to apply after it, or an outcome.
pub data Attempt : Type 0 where
  decided : ValidationDecision → Attempt
  finished : PlanOutcome → Attempt

abbrev denied_because : String → Attempt
denied_because reason = decided (record { decision = PolicyEffect.deny; reason = reason })

module _ (env : Env) where
  -- The approval that `_apply_policy_decision` asks for, where there is a service.
  unfoldable pub ask_approval :
      Option ℤ → CommandRecord → PolicyDecision → PolicyDecisionRecord → Action CommandRecord
  ask_approval none command decision saved =
      transition_command command.id rejected (record no_patch {
        payload = decision_entries saved [];
        policy_decision = some "deny";
        policy_reason = some "policy requires approval but no approval service is configured";
        policy_decision_id = some saved.id;
        error = some (coded "approval_service_missing" "approval service is not configured");
      })
  ask_approval (some ttl) command decision saved = do
    approval ← request env ttl command saved none
    transition_command command.id approval_required (record no_patch {
      payload = decision_entries saved (approval_entries approval);
      policy_decision = some "require_approval";
      policy_reason = some decision.reason;
      policy_decision_id = some saved.id;
      approval_id = some approval.id;
    })

  unfoldable pub apply_effect :
      Option ℤ
      → CommandRecord
      → PolicyDecision
      → PolicyDecisionRecord
      → PolicyEffect
      → Action CommandRecord
  unfolding ask_approval
  apply_effect service command decision saved PolicyEffect.deny =
      transition_command command.id rejected (record no_patch {
        payload = decision_entries saved [];
        policy_decision = some "deny";
        policy_reason = some decision.reason;
        policy_decision_id = some saved.id;
        error = some (coded "policy_rejected" decision.reason);
      })
  apply_effect service command decision saved PolicyEffect.require_approval =
      ask_approval service command decision saved
  apply_effect service command decision saved PolicyEffect.allow =
      transition_command command.id authorized (record no_patch {
        payload = decision_entries saved [];
        policy_decision = some "allow";
        policy_reason = some decision.reason;
        policy_decision_id = some saved.id;
      })

  unfoldable pub apply_policy_decision :
      Option ℤ → CommandRecord → PolicyDecision → Action CommandRecord
  unfolding apply_effect
  apply_policy_decision service command decision = do
    saved ← create_policy_decision command decision
    apply_effect service command decision saved decision.effect

  -- The governed branch of the `try` block.
  unfoldable pub governed :
      Option ℤ → PolicyEngine → CommandRecord → PolicyContext → Executor → Action Attempt
  unfolding apply_policy_decision
  governed service engine command context executor = do
    moved ← apply_policy_decision service command (evaluate env engine command context)
    if is_held moved.status
        then pure (finished (outcome moved false))
        else (do done ← execute_authorized env moved executor; pure (finished done))

  unfoldable pub by_policy :
      CommandJournal → CommandRecord → Option PolicyContext → Executor → Action Attempt
  unfolding governed
  by_policy journal command context executor = elim journal.policy_engine [
    | none ↦ pure (denied_because "no policy decision was provided; default deny")
    | some engine ↦ elim context [
      | none ↦ pure (denied_because "policy context is required for governed execution")
      | some given ↦ governed journal.approval_service engine command given executor
    ]
  ]

  -- The `try` block. A validator returns a decision or raises.
  unfoldable pub attempt :
      CommandJournal
      → CommandRecord
      → Option ValidationDecision
      → Option (CommandRecord → Result ValidationDecision)
      → Option PolicyContext
      → Executor
      → Action Attempt
  unfolding by_policy
  attempt journal command validation (some validator) context executor = do
    decision ← lift (validator command)
    pure (decided decision)
  attempt journal command (some validation) none context executor = pure (decided validation)
  attempt journal command none none context executor = by_policy journal command context executor

  -- `except Exception as exc`
  unfoldable pub validation_failed : CommandRecord → Error → Action Attempt
  validation_failed command e = do
    moved ← transition_command command.id failed (record no_patch {
      error = some (
          dict (
            ("code", text "validation_exception")
            ∷ ("message", text (redact_text env (env.error_text e)))
            ∷ ("type", text (error_type e))
            ∷ []));
    })
    pure (finished (outcome moved false))

  unfoldable pub conclude : CommandRecord → Executor → Attempt → Action PlanOutcome
  conclude command executor (finished done) = pure done
  conclude command executor (decided decision) = do
    moved ← apply_validation_decision env command decision
    if is_held moved.status
        then pure (outcome moved false)
        else execute_authorized env moved executor

  -- `execute` after `plan`
  unfoldable pub execute_planned :
      CommandJournal
      → PlanOutcome
      → Option ValidationDecision
      → Option (CommandRecord → Result ValidationDecision)
      → Option PolicyContext
      → Executor
      → Action PlanOutcome
  unfolding attempt validation_failed conclude
  execute_planned journal planned validation validator context executor =
      if planned.duplicate then pure (outcome planned.command true) else (do
        command ← transition_command planned.command.id validating no_patch
        tried ←
            catch (attempt journal command validation validator context executor)
              (validation_failed command)
        conclude command executor tried)

  unfoldable pub execute :
      CommandJournal
      → CommandSpec
      → Executor
      → Option ValidationDecision
      → Option (CommandRecord → Result ValidationDecision)
      → Option PolicyContext
      → Action PlanOutcome
  unfolding execute_planned
  execute journal spec executor validation validator context = do
    require (not (is_some validation && is_some validator))
        (value_error "provide either validation or validator, not both")
    planned ← plan env spec
    execute_planned journal planned validation validator context executor
