-- ===== src/Tests/Policies.antt =====
-- The theorems on the policy, the approvals and the redaction at the fixtures.
use solana_agent.Prelude.{◌≡◌, ◌≢◌, ◌↔◌, refl, true, false, ◌&&◌, ◌||◌, ◌==◌, leb, some, ◌∷◌, []}
use solana_agent.Json.{Json, text, dict, json_eq, get_key}
use solana_agent.Contracts.Authority.{PolicyEffect, ApprovalRecord, PolicyDecisionRecord, consumed}
use solana_agent.Contracts.Command.{
  is_terminal_command_status, may_transition, CommandStatus, succeeded,
}
use solana_agent.Contracts.Command.Paths.{terminal_iff}
use solana_agent.Exec.{ok, transaction, ◌>>=◌}
use solana_agent.Env.{sha256_json}
use solana_agent.Storage.Events.{append_event, max_sequence, event_fits}
use solana_agent.Storage.Approvals.{
  find_approval, find_decision, is_approved, require_approval, require_policy_decision,
  consume_approval, update_approvals,
}
use solana_agent.Authority.Redaction.{redact_mapping, contains_redaction}
use solana_agent.Authority.Redaction.Laws.{contains-redact_mapping, has_secret}
use solana_agent.Authority.Rules.{read_only, default_rules, matches}
use solana_agent.Authority.Inputs.{PolicyEngine, command_snapshot, is_material, is_within, lower_in}
use solana_agent.Authority.Policy.{
  evaluate, guard_decision, guard_paths, guard_argument, guard_path, rule_decision, first_match,
}
use solana_agent.Authority.Policy.Safety.{Unguarded, allow-Unguarded, material_never_allowed}
use solana_agent.Authority.Policy.ReadOnly.{is_listed, read_only_allows}
use solana_agent.Authority.Approvals.{consume, consume_checked, same_inputs, parse_time}
use solana_agent.Authority.Approvals.Consume.{consume-ok}
use solana_agent.Tests.Fixtures.{
  machine, command, upgrade, approval, engine, context, store, tables,
}

abbrev secret : Json
secret = dict (("private_key", text "s") ∷ ("note", text "hunter2") ∷ [])

contains-redact_mapping_example :
    contains_redaction (redact_mapping machine secret)
    ≡ has_secret machine secret || contains_redaction secret
contains-redact_mapping_example = contains-redact_mapping machine secret

reading : (evaluate machine engine command context).effect ≡ PolicyEffect.allow
unfolding evaluate guard_decision guard_paths guard_argument guard_path is_material is_within
    lower_in contains_redaction default_rules first_match matches rule_decision get_key
reading = refl

allow-Unguarded_example : Unguarded machine engine command context
allow-Unguarded_example = allow-Unguarded machine engine command context reading

material : is_material upgrade.adapter upgrade.operation ≡ true
unfolding is_material
material = refl

material_never_allowed_example :
    (evaluate machine engine upgrade context).effect ≢ PolicyEffect.allow
material_never_allowed_example = material_never_allowed machine engine upgrade context refl material

abbrev spent : ApprovalRecord
spent = record approval { status = consumed; consumed_at = some 0 }

usable : (consume machine "approval" command store).0 ≡ ok spent
unfolding consume consume_checked same_inputs require_approval require_policy_decision
    consume_approval find_approval find_decision update_approvals append_event max_sequence
    event_fits ◌>>=◌ transaction sha256_json json_eq get_key command_snapshot
usable = refl

consume-ok_example :
    (row : ApprovalRecord) × (made : PolicyDecisionRecord) × (find_approval "approval"
        tables.approvals
      ≡ some row)
    × (find_decision row.policy_decision_id tables.policy_decisions ≡ some made)
    × (is_approved row.status ≡ true)
    × (leb (parse_time row.expires_at) 0 ≡ false)
    × ((row.command_id == "c" && row.run_id == "run") ≡ true)
    × (same_inputs machine command made ≡ true)
    × ((sha256_json machine row.manifest == row.manifest_hash) ≡ true)
    × (find_approval "approval" (consume machine "approval" command store).1.tables.approvals
        ≡ some spent)
    × (spent.status ≡ consumed)
consume-ok_example = consume-ok machine command "approval" store usable

terminal_iff_example :
    (is_terminal_command_status succeeded ≡ true)
    ↔ ((t : CommandStatus) → may_transition succeeded t ≡ false)
terminal_iff_example = terminal_iff succeeded

abbrev reader : PolicyEngine
reader = record engine { profile = read_only }

read_reading : (evaluate machine reader command context).effect ≡ PolicyEffect.allow
unfolding evaluate guard_decision guard_paths guard_argument guard_path is_material is_within
    lower_in contains_redaction default_rules first_match matches rule_decision get_key
read_reading = refl

read_only_allows_example : is_listed "filesystem" "read" ≡ true
read_only_allows_example = read_only_allows machine reader command context refl refl read_reading
