-- ===== src/Storage/Journaled/Operations.antt =====
-- The invariant of the journal and the other methods of the repository.
use solana_agent.Prelude.{ℕ, String, ◌≡◌, refl, Option, none, List, [], ◌∷◌}
use solana_agent.Json.{Json}
use solana_agent.Contracts.Authority.{ApprovalStatus, PolicyDecision, pending}
use solana_agent.Contracts.Command.{CommandRecord}
use solana_agent.Contracts.Lifecycle.{RunStatus, created}
use solana_agent.Contracts.Mission.{MissionStepStatus}
use solana_agent.Exec.{modify}
use solana_agent.Exec.Preserves.{
  Preserves, Preserves-pure, Preserves-bind, Preserves-modify, Preserves-transaction_of, preserving,
}
use solana_agent.Storage.Tables.{Tables}
use solana_agent.Storage.Commands.{require_command}
use solana_agent.Storage.Commands.Replay.{told_status}
use solana_agent.Storage.Journaled.{IsJournaled, append_event-IsJournaled}
use solana_agent.Storage.Runs.{run_event, create_run, set_run_status, require_run}
use solana_agent.Storage.Approvals.{
  approval_event, create_policy_decision, require_policy_decision, create_approval,
  require_approval, decide_approval, consume_approval, expire_approval, expire_each,
  expire_pending_approvals,
}
use solana_agent.Storage.Artifacts.{create_artifact, require_artifact}
use solana_agent.Storage.Steps.{
  step_event, StepPatch, write_step, write_steps, initialize_mission_steps, list_mission_steps,
  require_mission_step, write_step_status, set_mission_step_status,
}

-- The invariant reads two of the tables, so a write to another keeps it.
Preserves-quiet :
    (f : Tables → Tables)
    → ((t : Tables) → (f t).events ≡ t.events)
    → ((t : Tables) → (f t).commands ≡ t.commands)
    → Preserves IsJournaled (modify f)
Preserves-quiet f same_events same_commands = Preserves-modify f λ t h. record {
  numbered = rw (same_events t) h.numbered;
  replayed = rw (same_events t) (rw (same_commands t) h.replayed);
}

told_status-run_event : (s : RunStatus) → told_status (run_event s) ≡ none
unfolding told_status run_event
told_status-run_event created = refl
told_status-run_event _ = refl

told_status-approval_event : (s : ApprovalStatus) → told_status (approval_event s) ≡ none
unfolding told_status approval_event
told_status-approval_event pending = refl
told_status-approval_event _ = refl

told_status-step_event : (s : MissionStepStatus) → told_status (step_event s) ≡ none
unfolding told_status step_event
told_status-step_event MissionStepStatus.pending = refl
told_status-step_event _ = refl

ruleset journal_rules = (
  preserving, Preserves-transaction_of, Preserves-quiet, append_event-IsJournaled,
  told_status-run_event, told_status-approval_event, told_status-step_event,
)

pub create_run-IsJournaled :
    (id mission_id : String) (metadata : Json) (snapshot : Option Json)
    → Preserves IsJournaled (create_run id mission_id metadata snapshot)
unfolding create_run require_run told_status
create_run-IsJournaled id mission_id metadata snapshot = search journal_rules depth 12

pub set_run_status-IsJournaled :
    (id : String) (status : RunStatus) (error : Option Json)
    → Preserves IsJournaled (set_run_status id status error)
unfolding set_run_status require_run
set_run_status-IsJournaled id status error = search journal_rules depth 12

pub create_policy_decision-IsJournaled :
    (command : CommandRecord) (decision : PolicyDecision)
    → Preserves IsJournaled (create_policy_decision command decision)
unfolding create_policy_decision require_policy_decision told_status
create_policy_decision-IsJournaled command decision = search journal_rules depth 12

pub create_approval-IsJournaled :
    (command_id decision_id : String) (manifest : Json) (manifest_hash : String) (expires_at : ℕ)
    → Preserves IsJournaled
        (create_approval command_id decision_id manifest manifest_hash expires_at)
unfolding create_approval require_approval require_command told_status
create_approval-IsJournaled command_id decision_id manifest manifest_hash expires_at =
    search journal_rules depth 14

pub decide_approval-IsJournaled :
    (id : String) (status : ApprovalStatus) (approved_by : String) (remark : Option String)
    → Preserves IsJournaled (decide_approval id status approved_by remark)
unfolding decide_approval require_approval
decide_approval-IsJournaled id status approved_by remark = search journal_rules depth 14

pub consume_approval-IsJournaled : (id : String) → Preserves IsJournaled (consume_approval id)
unfolding consume_approval require_approval told_status
consume_approval-IsJournaled id = search journal_rules depth 14

pub expire_approval-IsJournaled : (id : String) → Preserves IsJournaled (expire_approval id)
unfolding expire_approval require_approval told_status
expire_approval-IsJournaled id = search journal_rules depth 14

pub create_artifact-IsJournaled :
    (sha256_hex : String → String) (run_id : String) (command_id : Option String)
    (kind content : String)
    → Preserves IsJournaled (create_artifact sha256_hex run_id command_id kind content)
unfolding create_artifact require_artifact told_status
create_artifact-IsJournaled sha256_hex run_id command_id kind content =
    search journal_rules depth 14

pub set_mission_step_status-IsJournaled :
    (run_id step_id : String) (status : MissionStepStatus) (p : StepPatch)
    → Preserves IsJournaled (set_mission_step_status run_id step_id status p)
unfolding set_mission_step_status require_mission_step write_step_status
set_mission_step_status-IsJournaled run_id step_id status p = search journal_rules depth 14

expire_each-IsJournaled : (ids : List String) → Preserves IsJournaled (expire_each ids)
unfolding expire_each
expire_each-IsJournaled [] = Preserves-pure []
expire_each-IsJournaled (id ∷ ids) =
    Preserves-bind (expire_approval id) _ (expire_approval-IsJournaled id) λ a.
      Preserves-bind (expire_each ids) _ (expire_each-IsJournaled ids)
        λ rest. Preserves-pure (a ∷ rest)

pub expire_pending_approvals-IsJournaled :
    (now : ℕ) → Preserves IsJournaled (expire_pending_approvals now)
unfolding expire_pending_approvals
expire_pending_approvals-IsJournaled now = search (preserving, expire_each-IsJournaled)

write_step-IsJournaled :
    (run_id step_id definition_hash : String) (now : ℕ)
    → Preserves IsJournaled (write_step run_id step_id definition_hash now)
unfolding write_step told_status
write_step-IsJournaled run_id step_id definition_hash now = search journal_rules depth 12

write_steps-IsJournaled :
    (run_id : String) (steps : List (String × String)) (now : ℕ)
    → Preserves IsJournaled (write_steps run_id steps now)
unfolding write_steps
write_steps-IsJournaled run_id [] now = Preserves-pure tt
write_steps-IsJournaled run_id ((step_id, definition_hash) ∷ rest) now =
    Preserves-bind (write_step run_id step_id definition_hash now) _
      (write_step-IsJournaled run_id step_id definition_hash now)
      λ _. write_steps-IsJournaled run_id rest now

pub initialize_mission_steps-IsJournaled :
    (run_id : String) (steps : List (String × String))
    → Preserves IsJournaled (initialize_mission_steps run_id steps)
unfolding initialize_mission_steps require_run list_mission_steps
initialize_mission_steps-IsJournaled run_id steps =
    search (preserving, Preserves-transaction_of, write_steps-IsJournaled) depth 12
