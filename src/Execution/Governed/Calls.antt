-- ===== src/Execution/Governed/Calls.antt =====
-- Which commands reach an executor.
pub mod Decided
pub mod Once
pub mod Approved
use solana_agent.Prelude.{
  ℕ, String, ◌≡◌, ◌∙◌, refl, Bool, true, false, Option, none, some, List, [], ◌∷◌, inl, inr, ◌⊎◌,
  Option-cases, Bool-cases, if◌then◌else◌,
}
use solana_agent.Prelude.Int.{ℤ}
use solana_agent.Contracts.Authority.{
  PolicyContext, PolicyDecision, PolicyDecisionRecord, PolicyEffect,
}
use solana_agent.Contracts.Command.{CommandRecord, approval_required, rejected, authorized}
use solana_agent.Exec.{Result, ok, err, Action, Error, Store, integrity_error, raise, pure}
use solana_agent.Exec.Silent.{
  IsSilent, CallsOnce, IsSilent-pure, IsSilent-raise, IsSilent-lift, IsSilent-bind, IsSilent-catch,
  IsSilent-gets, silent_rules,
}
use solana_agent.Exec.Yields.{
  CallsOnce-given, Finds, Finds-bind, Yields, Yields-bind, IsSilent-given, CallsOnce-silent,
  CallsOnce-if, CallsOnce-call, CallsOnce-then, CallsOnce-before, CallsOnce-catch,
}
use solana_agent.Execution.Executor.{ExecutionRequest, Executor, ExecutorAnswer}
use solana_agent.Execution.Executor
use solana_agent.Env.{Env}
use solana_agent.Storage.Commands.{transition_command, find_command_by_idempotency}
use solana_agent.Storage.Commands.Changes.{transition_command-status}
use solana_agent.Exec.Preserves.{Preserves, Preserves-bind}
use solana_agent.Contracts.Moves.{IsSameWork}
use solana_agent.Storage.Commands.Work.{
  HasWork, transition_command-HasWork, transition_command-Finds, create_policy_decision-HasWork,
  request-HasWork,
}
use solana_agent.Storage.Quiet.{
  require_run-IsSilent, transition_command-IsSilent, insert_planned_command-IsSilent,
  create_policy_decision-IsSilent, create_approval-IsSilent, create_artifact-IsSilent,
}
use solana_agent.Authority.Inputs.{PolicyEngine}
use solana_agent.Authority.Policy.{evaluate}
use solana_agent.Authority.Approvals.{request}
use solana_agent.Execution.Journal.{
  CommandSpec, CommandJournal, PlanOutcome, outcome, ValidationDecision, plan, plan_new, insert_new,
  after_conflict, duplicate_or_raise, apply_validation_decision,
}
use solana_agent.Execution.Journal.Run.{
  request_of, record_streams, record_result, record_stop, record_exception, record_answer,
  execute_authorized,
}
use solana_agent.Execution.Governed.{
  is_held, Attempt, ask_approval, apply_effect, apply_policy_decision, governed, by_policy, attempt,
  validation_failed, conclude, execute_planned, execute, decided, finished,
}

pub ruleset quiet_rules = (
  silent_rules, require_run-IsSilent, transition_command-IsSilent, insert_planned_command-IsSilent,
  create_policy_decision-IsSilent, create_approval-IsSilent, create_artifact-IsSilent,
)

abbrev pub is_allow : PolicyEffect → Bool
is_allow PolicyEffect.allow = true
is_allow _ = false

-- The request is the one for the command.
pub record IsRequestOf (c : CommandRecord) (r : ExecutionRequest) : Type 0 where
  pub command_id : r.command_id ≡ c.id
  pub adapter : r.adapter ≡ c.adapter
  pub operation : r.operation ≡ c.operation
  pub arguments : r.arguments ≡ c.arguments
  pub cwd : r.cwd ≡ c.cwd
  pub timeout_seconds : r.timeout_seconds ≡ c.timeout_seconds

request_of-IsRequestOf :
    (env : Env) (c d : CommandRecord) → IsSameWork c d → IsRequestOf c (request_of env d)
request_of-IsRequestOf env c d h = record {
  command_id = h.id;
  adapter = h.adapter;
  operation = h.operation;
  arguments = h.arguments;
  cwd = h.cwd;
  timeout_seconds = h.timeout_seconds;
}

module _ (env : Env) where
  record_answer-IsSilent :
      (command : CommandRecord) (answer : ExecutorAnswer)
      → IsSilent (record_answer env command answer)
  unfolding record_answer record_result record_stop record_exception record_streams
  record_answer-IsSilent command (Executor.returned result) = search quiet_rules depth 16
  record_answer-IsSilent command (Executor.command_timed_out m o e) = search quiet_rules depth 16
  record_answer-IsSilent command (Executor.command_interrupted m o e) = search quiet_rules depth 16
  record_answer-IsSilent command (Executor.raised t m) = search quiet_rules depth 16

  pub execute_authorized-CallsOnce :
      {Q : ExecutionRequest → Type 0} (c command : CommandRecord) (executor : Executor)
      → IsSameWork c command
      → ((r : ExecutionRequest) → IsRequestOf c r → Q r)
      → CallsOnce (HasWork c) Q (execute_authorized env command executor)
  unfolding execute_authorized
  execute_authorized-CallsOnce c command executor work q =
      CallsOnce-given _ _ (transition_command-IsSilent _ _ _) (transition_command-HasWork _ _ _)
        (transition_command-Finds _ _ _ work.id)
        λ started same.
          CallsOnce-before _ _
            (CallsOnce-call executor _ (q _ (request_of-IsRequestOf env c started same)))
            λ answer. search (quiet_rules, record_answer-IsSilent)

  request-IsSilent :
      (ttl : ℤ) (command : CommandRecord) (saved : PolicyDecisionRecord)
      → IsSilent (request env ttl command saved none)
  unfolding request
  request-IsSilent ttl command saved = search quiet_rules depth 12

  apply_effect-IsSilent :
      (service : Option ℤ) (command : CommandRecord) (decision : PolicyDecision)
      (saved : PolicyDecisionRecord) (effect : PolicyEffect)
      → IsSilent (apply_effect env service command decision saved effect)
  unfolding apply_effect ask_approval
  apply_effect-IsSilent service command decision saved PolicyEffect.deny = search quiet_rules
  apply_effect-IsSilent service command decision saved PolicyEffect.allow = search quiet_rules
  apply_effect-IsSilent none command decision saved PolicyEffect.require_approval =
      search quiet_rules
  apply_effect-IsSilent (some ttl) command decision saved PolicyEffect.require_approval =
      search (quiet_rules, request-IsSilent)

  -- What an effect other than allow leads to is a command on hold.
  pub held_of :
      (m : Action CommandRecord)
      → Yields (λ c. c.status ≡ rejected) m
      → Yields (λ c. is_held c.status ≡ true) m
  held_of m y = record { at = λ s h. rw (y.at s h) refl }

  apply_effect-held :
      (service : Option ℤ) (command : CommandRecord) (decision : PolicyDecision)
      (saved : PolicyDecisionRecord) (effect : PolicyEffect)
      → is_allow effect ≡ false
      → Yields
          (λ c. is_held c.status ≡ true)
          (apply_effect env service command decision saved effect)
  unfolding apply_effect ask_approval
  apply_effect-held service command decision saved PolicyEffect.deny other =
      held_of _ (transition_command-status _ _ _)
  apply_effect-held service command decision saved PolicyEffect.allow other = absurd (cc)
  apply_effect-held none command decision saved PolicyEffect.require_approval other =
      held_of _ (transition_command-status _ _ _)
  apply_effect-held (some ttl) command decision saved PolicyEffect.require_approval other =
      Yields-bind _ _ λ approval. record {
        at = λ s h. rw ((transition_command-status _ approval_required _).at s h) refl;
      }

  apply_policy_decision-IsSilent :
      (service : Option ℤ) (command : CommandRecord) (decision : PolicyDecision)
      → IsSilent (apply_policy_decision env service command decision)
  unfolding apply_policy_decision
  apply_policy_decision-IsSilent service command decision =
      search (quiet_rules, apply_effect-IsSilent)

  apply_policy_decision-held :
      (service : Option ℤ) (command : CommandRecord) (decision : PolicyDecision)
      → is_allow decision.effect ≡ false
      → Yields (λ c. is_held c.status ≡ true) (apply_policy_decision env service command decision)
  unfolding apply_policy_decision
  apply_policy_decision-held service command decision other =
      Yields-bind _ _
        λ saved. apply_effect-held service command decision saved decision.effect other

  apply_effect-Finds :
      (service : Option ℤ) (command : CommandRecord) (decision : PolicyDecision)
      (saved : PolicyDecisionRecord) (effect : PolicyEffect)
      → Finds
          (HasWork command)
          (IsSameWork command)
          (apply_effect env service command decision saved effect)
  unfolding apply_effect ask_approval
  apply_effect-Finds service command decision saved PolicyEffect.deny =
      transition_command-Finds _ _ _ refl
  apply_effect-Finds service command decision saved PolicyEffect.allow =
      transition_command-Finds _ _ _ refl
  apply_effect-Finds none command decision saved PolicyEffect.require_approval =
      transition_command-Finds _ _ _ refl
  apply_effect-Finds (some ttl) command decision saved PolicyEffect.require_approval =
      Finds-bind _ _ (request-HasWork env ttl command saved)
        λ approval. transition_command-Finds _ _ _ refl

  apply_effect-HasWork :
      {c : CommandRecord} (service : Option ℤ) (command : CommandRecord) (decision : PolicyDecision)
      (saved : PolicyDecisionRecord) (effect : PolicyEffect)
      → Preserves (HasWork c) (apply_effect env service command decision saved effect)
  unfolding apply_effect ask_approval
  apply_effect-HasWork service command decision saved PolicyEffect.deny =
      transition_command-HasWork _ _ _
  apply_effect-HasWork service command decision saved PolicyEffect.allow =
      transition_command-HasWork _ _ _
  apply_effect-HasWork none command decision saved PolicyEffect.require_approval =
      transition_command-HasWork _ _ _
  apply_effect-HasWork (some ttl) command decision saved PolicyEffect.require_approval =
      Preserves-bind _ _ (request-HasWork env ttl command saved)
        λ approval. transition_command-HasWork _ _ _

  apply_policy_decision-Finds :
      (service : Option ℤ) (command : CommandRecord) (decision : PolicyDecision)
      → Finds
          (HasWork command)
          (IsSameWork command)
          (apply_policy_decision env service command decision)
  unfolding apply_policy_decision
  apply_policy_decision-Finds service command decision =
      Finds-bind _ _ (create_policy_decision-HasWork command decision)
        λ saved. apply_effect-Finds service command decision saved decision.effect

  apply_policy_decision-HasWork :
      {c : CommandRecord} (service : Option ℤ) (command : CommandRecord) (decision : PolicyDecision)
      → Preserves (HasWork c) (apply_policy_decision env service command decision)
  unfolding apply_policy_decision
  apply_policy_decision-HasWork service command decision =
      Preserves-bind _ _ (create_policy_decision-HasWork command decision)
        λ saved. apply_effect-HasWork service command decision saved decision.effect

  pub governed-CallsOnce :
      {Q : ExecutionRequest → Type 0} (service : Option ℤ) (engine : PolicyEngine)
      (command : CommandRecord) (context : PolicyContext) (executor : Executor)
      → (is_allow (evaluate env engine command context).effect ≡ true
          → (r : ExecutionRequest) → IsRequestOf command r
          → Q r)
      → CallsOnce (HasWork command) Q (governed env service engine command context executor)
  unfolding governed
  governed-CallsOnce service engine command context executor q =
      elim (Bool-cases (is_allow (evaluate env engine command context).effect)) [
        | inl allowed ↦
            CallsOnce-given _ _ (apply_policy_decision-IsSilent _ _ _)
              (apply_policy_decision-HasWork service command _)
              (apply_policy_decision-Finds service command _)
              λ moved work. CallsOnce-if _ _ _ (CallsOnce-silent _ (IsSilent-pure _)) (
                CallsOnce-before _ _
                  (execute_authorized-CallsOnce command moved executor work (q allowed))
                  λ done. IsSilent-pure _)
        | inr other ↦ CallsOnce-silent _ (
            IsSilent-given _ _ (apply_policy_decision-IsSilent _ _ _)
              (apply_policy_decision-held service command _ other)
              λ moved held. rw held (IsSilent-pure _))
      ]
