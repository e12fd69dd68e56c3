-- ===== src/Storage/Approvals.antt =====
-- The `policy_decisions` and `approvals` tables and their repository methods
-- (solana_agent/storage/repositories.py).
pub mod Changes
use Prim.Native.String.{◌++◌}
use solana_agent.Prelude.{
  ℕ, String, Bool, true, false, not, ◌&&◌, ◌||◌, Option, none, some, List, [], ◌∷◌, ◌==◌, leb, any,
  if◌then◌else◌,
}
use solana_agent.Json.{Json, text, number, dict, optional_text}
use solana_agent.Prelude.Int.{pos}
use solana_agent.Contracts.Authority.{
  PolicyDecision, PolicyDecisionRecord, ApprovalStatus, ApprovalRecord, pending, approved, denied,
  expired, consumed, effect_value, risk_value, approval_value,
}
use solana_agent.Contracts.Command.{CommandRecord}
use solana_agent.Exec.{
  Action, key_error, integrity_error, value_error, pure, gets, or_raise, require, modify,
  transaction, utc_now, fresh_id, ◌>>=◌, ◌>>◌,
}
use solana_agent.Storage.Tables.{Tables}
use solana_agent.Storage.Events.{run_exists, command_exists, append_event}
use solana_agent.Storage.Commands.{require_command}

unfoldable pub find_decision : String → List PolicyDecisionRecord → Option PolicyDecisionRecord
find_decision id [] = none
find_decision id (d ∷ ds) = if d.id == id then some d else find_decision id ds

unfoldable pub require_policy_decision : String → Action PolicyDecisionRecord
require_policy_decision id = do
  found ← gets (λ t. find_decision id t.policy_decisions)
  or_raise found (key_error ("policy decision not found: " ++ id))

abbrev decision_row : String → CommandRecord → PolicyDecision → ℕ → PolicyDecisionRecord
decision_row id command d now = record {
  id = id;
  run_id = command.run_id;
  command_id = command.id;
  effect = d.effect;
  rule_id = d.rule_id;
  policy_version = d.policy_version;
  reason = d.reason;
  risk = d.risk;
  required_evidence = d.required_evidence;
  input_snapshot = d.input_snapshot;
  input_hash = d.input_hash;
  created_at = now;
}

decision_payload : PolicyDecisionRecord → Json
decision_payload d = dict (
    ("policy_decision_id", text d.id)
    ∷ ("effect", text (effect_value d.effect))
    ∷ ("rule_id", text d.rule_id)
    ∷ ("policy_version", text d.policy_version)
    ∷ ("risk", text (risk_value d.risk))
    ∷ ("input_hash", text d.input_hash)
    ∷ [])

decision_fits : PolicyDecisionRecord → Tables → Bool
decision_fits d t =
    not (any (λ o. o.id == d.id) t.policy_decisions)
    && (run_exists d.run_id t.runs && command_exists d.command_id t.commands)

write_decision : PolicyDecisionRecord → ℕ → Action (Unit {0})
unfolding decision_fits decision_payload
write_decision d now = do
  fits ← gets (decision_fits d)
  require fits (integrity_error "policy_decisions")
  modify (λ t. record t { policy_decisions = d ∷ t.policy_decisions })
  append_event d.run_id (some d.command_id) "policy.evaluated" (decision_payload d) now

unfoldable pub create_policy_decision : CommandRecord → PolicyDecision → Action PolicyDecisionRecord
unfolding write_decision
create_policy_decision command decision = do
  id ← fresh_id "policy-"
  now ← utc_now
  transaction (write_decision (decision_row id command decision now) now)
  require_policy_decision id

unfoldable pub find_approval : String → List ApprovalRecord → Option ApprovalRecord
find_approval id [] = none
find_approval id (a ∷ as') = if a.id == id then some a else find_approval id as'

unfoldable pub require_approval : String → Action ApprovalRecord
require_approval id = do
  found ← gets (λ t. find_approval id t.approvals)
  or_raise found (key_error ("approval not found: " ++ id))

abbrev approval_row : String → CommandRecord → String → Json → String → ℕ → ℕ → ApprovalRecord
approval_row id command decision_id manifest manifest_hash expires_at now = record {
  id = id;
  run_id = command.run_id;
  command_id = command.id;
  policy_decision_id = decision_id;
  manifest = manifest;
  manifest_hash = manifest_hash;
  status = pending;
  requested_at = now;
  expires_at = expires_at;
  decided_at = none;
  approved_by = none;
  note = none;
  consumed_at = none;
}

approval_fits : ApprovalRecord → Tables → Bool
approval_fits a t =
    not (any (λ o. o.id == a.id) t.approvals)
    && (run_exists a.run_id t.runs
        && (command_exists a.command_id t.commands
            && any (λ d. d.id == a.policy_decision_id) t.policy_decisions))

write_approval : ApprovalRecord → ℕ → Action (Unit {0})
unfolding approval_fits
write_approval a now = do
  fits ← gets (approval_fits a)
  require fits (integrity_error "approvals")
  modify (λ t. record t { approvals = a ∷ t.approvals })
  append_event a.run_id (some a.command_id) "approval.requested"
      (dict (
        ("approval_id", text a.id)
        ∷ ("manifest_hash", text a.manifest_hash)
        ∷ ("expires_at", number (pos a.expires_at))
        ∷ []))
      now

unfoldable pub create_approval : String → String → Json → String → ℕ → Action ApprovalRecord
unfolding write_approval
create_approval command_id decision_id manifest manifest_hash expires_at = do
  command ← require_command command_id
  id ← fresh_id "approval-"
  now ← utc_now
  transaction (
      write_approval (approval_row id command decision_id manifest manifest_hash expires_at now)
        now)
  require_approval id

-- `UPDATE approvals … WHERE id = ?`
unfoldable pub update_approvals :
    String → (ApprovalRecord → ApprovalRecord) → List ApprovalRecord → List ApprovalRecord
update_approvals id f [] = []
update_approvals id f (a ∷ as') = (if a.id == id then f a else a) ∷ update_approvals id f as'

abbrev pub change_approval : String → (ApprovalRecord → ApprovalRecord) → Tables → Tables
change_approval id f t = record t { approvals = update_approvals id f t.approvals }

abbrev pub is_pending : ApprovalStatus → Bool
is_pending pending = true
is_pending _ = false

abbrev pub is_approved : ApprovalStatus → Bool
is_approved approved = true
is_approved _ = false

abbrev is_decision : ApprovalStatus → Bool
is_decision approved = true
is_decision denied = true
is_decision _ = false

unfoldable pub approval_event : ApprovalStatus → String
unfolding approval_value
approval_event status = "approval." ++ approval_value status

-- `decide_approval`, inside its transaction
write_verdict : String → ApprovalStatus → String → Option String → ℕ → Action (Unit {0})
write_verdict id status approved_by note now = do
  found ← gets (λ t. find_approval id t.approvals)
  row ← or_raise found (key_error ("approval not found: " ++ id))
  require (is_pending row.status) (value_error "only pending approvals can be decided")
  require (not (leb row.expires_at now)) (value_error "approval request has expired")
  modify (
      change_approval id λ a. record a {
        status = status;
        decided_at = some now;
        approved_by = some approved_by;
        note = note;
      })
  append_event row.run_id (some row.command_id) (approval_event status)
      (dict (
        ("approval_id", text id)
        ∷ ("approved_by", text approved_by)
        ∷ ("note", optional_text note)
        ∷ []))
      now

unfoldable pub decide_approval :
    String → ApprovalStatus → String → Option String → Action ApprovalRecord
unfolding write_verdict
decide_approval id status approved_by note = do
  require (is_decision status) (value_error "approval decision must be approved or denied")
  now ← utc_now
  transaction (write_verdict id status approved_by note now)
  require_approval id

-- `consume_approval`, inside its transaction
write_consumed : String → ℕ → Action (Unit {0})
write_consumed id now = do
  found ← gets (λ t. find_approval id t.approvals)
  row ← or_raise found (key_error ("approval not found: " ++ id))
  require (is_approved row.status) (value_error "only approved approvals can be consumed")
  modify (change_approval id λ a. record a { status = consumed; consumed_at = some now })
  append_event row.run_id (some row.command_id) "approval.consumed"
      (dict (("approval_id", text id) ∷ [])) now

unfoldable pub consume_approval : String → Action ApprovalRecord
unfolding write_consumed
consume_approval id = do now ← utc_now; transaction (write_consumed id now); require_approval id

-- `expire_approval`, inside its transaction; a decided approval is left as it is
write_expired : String → ℕ → Action (Unit {0})
write_expired id now = do
  found ← gets (λ t. find_approval id t.approvals)
  row ← or_raise found (key_error ("approval not found: " ++ id))
  if is_pending row.status || is_approved row.status
      then (do
        modify (change_approval id λ a. record a { status = expired })
        append_event row.run_id (some row.command_id) "approval.expired"
            (dict (("approval_id", text id) ∷ [])) now)
      else pure tt

unfoldable pub expire_approval : String → Action ApprovalRecord
unfolding write_expired
expire_approval id = do now ← utc_now; transaction (write_expired id now); require_approval id

-- `status IN ('pending', 'approved') AND expires_at <= ?`
pub due_approvals : ℕ → List ApprovalRecord → List String
due_approvals now [] = []
due_approvals now (a ∷ as') =
    let rest = due_approvals now as' in
    if (is_pending a.status || is_approved a.status) && leb a.expires_at now
    then a.id ∷ rest
    else rest

unfoldable pub expire_each : List String → Action (List ApprovalRecord)
expire_each [] = pure []
expire_each (id ∷ ids) = do a ← expire_approval id; rest ← expire_each ids; pure (a ∷ rest)

unfoldable pub expire_pending_approvals : ℕ → Action (List ApprovalRecord)
unfolding expire_each
expire_pending_approvals now = do ids ← gets (λ t. due_approvals now t.approvals); expire_each ids
