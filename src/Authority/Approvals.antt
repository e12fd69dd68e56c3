-- ===== src/Authority/Approvals.antt =====
-- `ApprovalService` (solana_agent/authority/approvals.py).
pub mod Journaled
pub mod Consume
use Prim.Native.Char.{code}
use Prim.Native.String
use Prim.Native.String.{◌++◌}
use solana_agent.Prelude.{
  ℕ, ◌+◌, ◌*◌, String, Bool, true, false, not, ◌&&◌, ◌||◌, ◌==◌, Option, none, some, List, [], ◌∷◌,
  leb, nat_eq, all, if◌then◌else◌,
}
use solana_agent.Prelude.Int.{ℤ, pos, pos_part, ltb_ℤ}
use solana_agent.Json.{Json, null, text, number, dict, get_key, json_eq}
use solana_agent.Contracts.Authority.{
  PolicyDecisionRecord, PolicyEffect, ApprovalRecord, ApprovalStatus, approved, denied,
  approval_value,
}
use solana_agent.Contracts.Command.{CommandRecord}
use solana_agent.Exec.{
  Action, approval_error, value_error, pure, raise, require, read_clock, whole_seconds, ◌>>=◌, ◌>>◌,
}
use solana_agent.Env.{Env, sha256_json}
use solana_agent.Storage.Approvals.{
  require_policy_decision, require_approval, create_approval, decide_approval, consume_approval,
  expire_approval, expire_pending_approvals, is_pending, is_approved,
}
use solana_agent.Authority.Redaction.{redact_text}
use solana_agent.Authority.Inputs.{command_snapshot}

-- `not text.strip()`: nothing but whitespace.
abbrev is_space : ℕ → Bool
is_space c =
    (leb 9 c && leb c 13)
    || ((leb 28 c && leb c 32)
        || (nat_eq c 0x85
            || (nat_eq c 0xa0
                || (nat_eq c 0x1680
                    || ((leb 0x2000 c && leb c 0x200a)
                        || (nat_eq c 0x2028
                            || (nat_eq c 0x2029
                                || (nat_eq c 0x202f || (nat_eq c 0x205f || nat_eq c 0x3000)))))))))

unfoldable pub is_blank : String → Bool
is_blank String.[] = true
is_blank (String.◌∷◌ c s) = is_space (code c) && is_blank s

abbrev asks_approval : PolicyEffect → Bool
asks_approval PolicyEffect.require_approval = true
asks_approval _ = false

-- `timedelta(seconds=1)` in the clock's unit, and `_parse`: the time that a text of whole seconds
-- stands for.
abbrev second : ℕ
second = 1000000

abbrev pub parse_time : ℕ → ℕ
parse_time seconds = seconds * second

-- `ApprovalService.__init__` refuses a lifetime that is not positive.
abbrev ttl_seconds : ℤ → Option ℤ → ℤ
ttl_seconds default_ttl none = default_ttl
ttl_seconds default_ttl (some ttl) = ttl

abbrev manifest : CommandRecord → PolicyDecisionRecord → ℕ → Json
manifest command decision expires_at = dict (
    ("command_id", text command.id)
    ∷ ("run_id", text command.run_id)
    ∷ ("policy_decision_id", text decision.id)
    ∷ ("policy_version", text decision.policy_version)
    ∷ ("rule_id", text decision.rule_id)
    ∷ ("input_hash", text decision.input_hash)
    ∷ ("expires_at", number (pos expires_at))
    ∷ [])

abbrev redact_note : Env → Option String → Option String
redact_note env none = none
redact_note env (some note) = if note == "" then none else some (redact_text env note)

abbrev snapshot_part : Option Json → Json
snapshot_part none = null
snapshot_part (some v) = v

-- The request for an approval with the lifetime `ttl` of the service.
module _ (env : Env) where
  unfoldable pub request :
      ℤ → CommandRecord → PolicyDecisionRecord → Option ℤ → Action ApprovalRecord
  request default_ttl command decision ttl = do
    require (asks_approval decision.effect)
        (value_error "approval requests require a require_approval policy decision")
    let life = ttl_seconds default_ttl ttl
    require (ltb_ℤ (pos 0) life) (value_error "ttl_seconds must be greater than zero")
    now ← read_clock
    let expires_at = whole_seconds (now + pos_part life * second)
    create_approval command.id decision.id (manifest command decision expires_at)
        (sha256_json env (manifest command decision expires_at)) expires_at

  unfoldable pub approve : String → String → Option String → Action ApprovalRecord
  approve id approved_by note = do
    require (not (is_blank approved_by)) (value_error "approved_by must not be empty")
    decide_approval id approved approved_by (redact_note env note)

  unfoldable pub deny : String → String → Option String → Action ApprovalRecord
  deny id approved_by note = do
    require (not (is_blank approved_by)) (value_error "approved_by must not be empty")
    decide_approval id denied approved_by (redact_note env note)

  -- The inputs that the decision was taken on are still the command's.
  unfoldable pub same_inputs : CommandRecord → PolicyDecisionRecord → Bool
  same_inputs command decision =
      json_eq (snapshot_part (get_key "command" decision.input_snapshot)) (command_snapshot command)
      && sha256_json env decision.input_snapshot == decision.input_hash

  -- `consume` from its second test on, with the approval that the first one left
  unfoldable pub consume_checked :
      ApprovalRecord → PolicyDecisionRecord → ℕ → CommandRecord → Action ApprovalRecord
  consume_checked approval decision now command = do
    require (is_approved approval.status)
        (approval_error ("approval is not usable: " ++ approval_value approval.status))
    if leb (parse_time approval.expires_at) now
        then (do expire_approval approval.id; raise (approval_error "approval has expired"))
        else (do
          require (approval.command_id == command.id && approval.run_id == command.run_id)
              (approval_error "approval is bound to a different command")
          require (same_inputs command decision)
              (approval_error "command or policy inputs changed after approval was requested")
          require (sha256_json env approval.manifest == approval.manifest_hash)
              (approval_error "approval manifest integrity check failed")
          consume_approval approval.id)

  unfoldable pub consume : String → CommandRecord → Action ApprovalRecord
  consume id command = do
    approval ← require_approval id
    decision ← require_policy_decision approval.policy_decision_id
    now ← read_clock
    current ←
        if is_pending approval.status && leb (parse_time approval.expires_at) now
        then expire_approval approval.id
        else pure approval
    consume_checked current decision now command

unfoldable pub expire_pending : Action (List ApprovalRecord)
expire_pending = do now ← read_clock; expire_pending_approvals (whole_seconds now)
