-- ===== src/Storage/Quiet.antt =====
-- The repository and the calls of executors.
use solana_agent.Prelude.{ℕ, String, Option}
use solana_agent.Json.{Json}
use solana_agent.Contracts.Authority.{PolicyDecision}
use solana_agent.Contracts.Command.{CommandStatus, CommandRecord}
use solana_agent.Exec.Silent.{IsSilent, silent_rules}
use solana_agent.Storage.Events.{append_event}
use solana_agent.Storage.Runs.{require_run}
use solana_agent.Storage.Commands.{
  PlannedCommand, write_planned, insert_planned_command, require_command, Patch, write_transition,
  transition_command,
}
use solana_agent.Storage.Approvals.{
  require_policy_decision, create_policy_decision, require_approval, create_approval,
  consume_approval, expire_approval,
}
use solana_agent.Storage.Artifacts.{require_artifact, create_artifact}

append_event-IsSilent :
    (run_id : String) (command_id : Option String) (event_type : String) (payload : Json) (at : ℕ)
    → IsSilent (append_event run_id command_id event_type payload at)
unfolding append_event
append_event-IsSilent run_id command_id event_type payload at = search silent_rules depth 12

ruleset storage_rules = (silent_rules, append_event-IsSilent)

pub require_run-IsSilent : (id : String) → IsSilent (require_run id)
unfolding require_run
require_run-IsSilent id = search silent_rules

pub transition_command-IsSilent :
    (id : String) (target : CommandStatus) (p : Patch) → IsSilent (transition_command id target p)
unfolding transition_command require_command write_transition
transition_command-IsSilent id target p = search storage_rules depth 16

pub insert_planned_command-IsSilent :
    (id : String) (p : PlannedCommand) → IsSilent (insert_planned_command id p)
unfolding insert_planned_command require_command write_planned
insert_planned_command-IsSilent id p = search storage_rules depth 16

pub create_policy_decision-IsSilent :
    (command : CommandRecord) (decision : PolicyDecision)
    → IsSilent (create_policy_decision command decision)
unfolding create_policy_decision require_policy_decision
create_policy_decision-IsSilent command decision = search storage_rules depth 16

pub create_approval-IsSilent :
    (command_id decision_id : String) (manifest : Json) (manifest_hash : String) (expires_at : ℕ)
    → IsSilent (create_approval command_id decision_id manifest manifest_hash expires_at)
unfolding create_approval require_approval require_command
create_approval-IsSilent command_id decision_id manifest manifest_hash expires_at =
    search storage_rules depth 16

pub create_artifact-IsSilent :
    (sha256_hex : String → String) (run_id : String) (command_id : Option String)
    (kind content : String)
    → IsSilent (create_artifact sha256_hex run_id command_id kind content)
unfolding create_artifact require_artifact
create_artifact-IsSilent sha256_hex run_id command_id kind content = search storage_rules depth 16

pub consume_approval-IsSilent : (id : String) → IsSilent (consume_approval id)
unfolding consume_approval require_approval
consume_approval-IsSilent id = search storage_rules depth 16

pub expire_approval-IsSilent : (id : String) → IsSilent (expire_approval id)
unfolding expire_approval require_approval
expire_approval-IsSilent id = search storage_rules depth 16

pub require_approval-IsSilent : (id : String) → IsSilent (require_approval id)
unfolding require_approval
require_approval-IsSilent id = search storage_rules

pub require_policy_decision-IsSilent : (id : String) → IsSilent (require_policy_decision id)
unfolding require_policy_decision
require_policy_decision-IsSilent id = search storage_rules
