-- ===== src/Execution/Governed/Calls/Decided.antt =====
-- What `CommandJournal.execute` does after its `try` block, one lemma for each way that the block can end.
use solana_agent.Prelude.{◌≡◌, refl, true, false, Option, some, inl, inr, Bool-cases}
use solana_agent.Prelude.Int.{ℤ}
use solana_agent.Contracts.Authority.{PolicyContext, PolicyEffect}
use solana_agent.Contracts.Command.{CommandRecord, approval_required}
use solana_agent.Exec.{Action, Error, catch, ◌>>=◌}
use solana_agent.Exec.Silent.{IsSilent, CallsOnce, IsSilent-pure, IsSilent-catch}
use solana_agent.Exec.Yields.{
  Yields, Yields-bind, Yields-pure, Yields-if, Yields-catch, CallsOnce-given, Finds, Finds-Yields,
  CallsOnce-before_given, IsSilent-given, CallsOnce-silent, CallsOnce-if, CallsOnce-catch,
}
use solana_agent.Execution.Executor.{ExecutionRequest, Executor}
use solana_agent.Env.{Env}
use solana_agent.Storage.Commands.Changes.{transition_command-status}
use solana_agent.Contracts.Moves.{IsSameWork}
use solana_agent.Exec.Preserves.{Preserves, Preserves-bind, Preserves-pure, Preserves-catch}
use solana_agent.Storage.Commands.Work.{
  HasWork, transition_command-HasWork, transition_command-Finds,
}
use solana_agent.Authority.Inputs.{PolicyEngine}
use solana_agent.Execution.Journal.{PlanOutcome, ValidationDecision, apply_validation_decision}
use solana_agent.Execution.Governed.{
  is_held, Attempt, governed, validation_failed, conclude, decided, finished,
}
use solana_agent.Execution.Governed.Calls.{
  IsRequestOf, quiet_rules, is_allow, held_of, execute_authorized-CallsOnce,
}

-- A decision to allow is one that cleared the command.
abbrev pub Cleared : Option PolicyEffect → Attempt → Type 0
Cleared effect (finished done) = Unit
Cleared effect (decided d) = is_allow d.decision ≡ true → effect ≡ some PolicyEffect.allow

abbrev pub IsFinished : Attempt → Type 0
IsFinished (finished done) = Unit
IsFinished (decided d) = ⊥

pub allowed_some : (d : PolicyEffect) → is_allow d ≡ true → some d ≡ some PolicyEffect.allow
allowed_some PolicyEffect.allow h = refl
allowed_some PolicyEffect.deny h = absurd (cc)
allowed_some PolicyEffect.require_approval h = absurd (cc)

module _ (env : Env) where
  apply_validation_decision-IsSilent :
      (command : CommandRecord) (d : ValidationDecision)
      → IsSilent (apply_validation_decision env command d)
  unfolding apply_validation_decision
  apply_validation_decision-IsSilent command d = by_effect d.decision
    where
      by_effect :
          (e : PolicyEffect)
          → IsSilent (apply_validation_decision env command (record d { decision = e }))
      by_effect PolicyEffect.deny = search quiet_rules
      by_effect PolicyEffect.require_approval = search quiet_rules
      by_effect PolicyEffect.allow = search quiet_rules

  apply_validation_decision-held :
      (command : CommandRecord) (d : ValidationDecision)
      → is_allow d.decision ≡ false
      → Yields (λ c. is_held c.status ≡ true) (apply_validation_decision env command d)
  unfolding apply_validation_decision
  apply_validation_decision-held command d other = by_effect d.decision other
    where
      by_effect :
          (e : PolicyEffect)
          → is_allow e ≡ false
          → Yields
              (λ c. is_held c.status ≡ true)
              (apply_validation_decision env command (record d { decision = e }))
      by_effect PolicyEffect.deny h = held_of env _ (transition_command-status _ _ _)
      by_effect PolicyEffect.require_approval h = record {
        at = λ s h. rw ((transition_command-status _ approval_required _).at s h) refl;
      }
      by_effect PolicyEffect.allow h = absurd (cc)

  apply_validation_decision-Finds :
      (command : CommandRecord) (d : ValidationDecision)
      → Finds (HasWork command) (IsSameWork command) (apply_validation_decision env command d)
  unfolding apply_validation_decision
  apply_validation_decision-Finds command d = by_effect d.decision
    where
      by_effect :
          (e : PolicyEffect)
          → Finds
              (HasWork command)
              (IsSameWork command)
              (apply_validation_decision env command (record d { decision = e }))
      by_effect PolicyEffect.deny = transition_command-Finds _ _ _ refl
      by_effect PolicyEffect.require_approval = transition_command-Finds _ _ _ refl
      by_effect PolicyEffect.allow = transition_command-Finds _ _ _ refl

  apply_validation_decision-HasWork :
      {c : CommandRecord} (command : CommandRecord) (d : ValidationDecision)
      → Preserves (HasWork c) (apply_validation_decision env command d)
  unfolding apply_validation_decision
  apply_validation_decision-HasWork {c} command d = by_effect d.decision
    where
      by_effect :
          (e : PolicyEffect)
          → Preserves
              (HasWork c)
              (apply_validation_decision env command (record d { decision = e }))
      by_effect PolicyEffect.deny = transition_command-HasWork _ _ _
      by_effect PolicyEffect.require_approval = transition_command-HasWork _ _ _
      by_effect PolicyEffect.allow = transition_command-HasWork _ _ _

  conclude-CallsOnce :
      {Q : ExecutionRequest → Type 0} (command : CommandRecord) (executor : Executor)
      (effect : Option PolicyEffect) (tried : Attempt)
      → (effect ≡ some PolicyEffect.allow → (r : ExecutionRequest) → IsRequestOf command r → Q r)
      → Cleared effect tried
      → CallsOnce (HasWork command) Q (conclude env command executor tried)
  unfolding conclude
  conclude-CallsOnce command executor effect (finished done) q c =
      CallsOnce-silent _ (IsSilent-pure _)
  conclude-CallsOnce command executor effect (decided d) q c =
      elim (Bool-cases (is_allow d.decision)) [
        | inl allowed ↦
            CallsOnce-given _ _ (apply_validation_decision-IsSilent _ _)
              (apply_validation_decision-HasWork command d)
              (apply_validation_decision-Finds command d)
              λ moved work.
                CallsOnce-if _ _ _ (CallsOnce-silent _ (IsSilent-pure _))
                  (execute_authorized-CallsOnce env command moved executor work (q (c allowed)))
        | inr other ↦ CallsOnce-silent _ (
            IsSilent-given _ _ (apply_validation_decision-IsSilent _ _)
              (apply_validation_decision-held command d other)
              λ moved held. rw held (IsSilent-pure _))
      ]

  validation_failed-IsSilent :
      (command : CommandRecord) (e : Error) → IsSilent (validation_failed env command e)
  unfolding validation_failed
  validation_failed-IsSilent command e = search quiet_rules

  validation_failed-HasWork :
      {c : CommandRecord} (command : CommandRecord) (e : Error)
      → Preserves (HasWork c) (validation_failed env command e)
  unfolding validation_failed
  validation_failed-HasWork command e =
      Preserves-bind _ _ (transition_command-HasWork _ _ _) λ moved. Preserves-pure _

  validation_failed-Yields :
      {P : Attempt → Type 0} (command : CommandRecord) (e : Error)
      → ((done : PlanOutcome) → P (finished done))
      → Yields P (validation_failed env command e)
  unfolding validation_failed
  validation_failed-Yields command e p = Yields-bind _ _ λ moved. Yields-pure _ (p _)

  pub governed-IsFinished :
      (service : Option ℤ) (engine : PolicyEngine) (command : CommandRecord)
      (context : PolicyContext) (executor : Executor)
      → Yields IsFinished (governed env service engine command context executor)
  unfolding governed
  governed-IsFinished service engine command context executor =
      Yields-bind _ _
        λ moved. Yields-if _ _ _ (Yields-pure _ tt) (Yields-bind _ _ λ done. Yields-pure _ tt)

  -- The three ways that the `try` block and what follows it can go.
  pub tried_silent :
      {Q : ExecutionRequest → Type 0} (command : CommandRecord) (executor : Executor)
      (effect : Option PolicyEffect) (m : Action Attempt)
      → (effect ≡ some PolicyEffect.allow → (r : ExecutionRequest) → IsRequestOf command r → Q r)
      → IsSilent m
      → Preserves (HasWork command) m
      → Yields (Cleared effect) m
      → CallsOnce
          (HasWork command)
          Q
          (catch m (validation_failed env command) >>= conclude env command executor)
  tried_silent command executor effect m q silent keeps cleared =
      CallsOnce-given _ _ (IsSilent-catch _ _ silent (validation_failed-IsSilent command))
        (Preserves-catch _ _ keeps (λ e. validation_failed-HasWork command e))
        (Finds-Yields _
          (Yields-catch _ _ cleared λ e. validation_failed-Yields command e (λ done. tt)))
        λ tried c. conclude-CallsOnce command executor effect tried q c

  pub tried_finished :
      {Q : ExecutionRequest → Type 0} (command : CommandRecord) (executor : Executor)
      (m : Action Attempt)
      → CallsOnce (HasWork command) Q m
      → Yields IsFinished m
      → CallsOnce
          (HasWork command)
          Q
          (catch m (validation_failed env command) >>= conclude env command executor)
  unfolding conclude
  tried_finished command executor m once done =
      CallsOnce-before_given _ _ (CallsOnce-catch _ _ once (validation_failed-IsSilent command))
        (Yields-catch _ _ done λ e. validation_failed-Yields command e (λ done. tt)) silent
    where
      silent : (tried : Attempt) → IsFinished tried → IsSilent (conclude env command executor tried)
      silent (finished done) f = IsSilent-pure _
      silent (decided d) f = absurd f
