-- ===== src/Execution/Journal.antt =====
-- `CommandJournal` (solana_agent/execution/journal.py) and the key of idempotency.py.
pub mod Run
pub mod Start
use Prim.Native.Char.{code}
use Prim.Native.String
use solana_agent.Prelude.{
  ℕ, ◌+◌, String, Bool, true, false, not, ◌&&◌, ◌||◌, ◌==◌, Option, none, some, List, [], ◌∷◌, leb,
  nat_eq, all, length, if◌then◌else◌,
}
use solana_agent.Prelude.Int.{ℤ, pos, ltb_ℤ}
use solana_agent.Json.{Json, text, number, dict, fields, optional_text, array_of, texts}
use solana_agent.Contracts.Authority.{
  PolicyContext, PolicyDecision, PolicyDecisionRecord, PolicyEffect, ApprovalRecord, risk_value,
}
use solana_agent.Contracts.Command.{
  CommandRecord, CommandStatus, validating, approval_required, authorized, rejected, cancelled,
}
use solana_agent.Contracts.Lifecycle.{RunRecord}
use solana_agent.Exec.{
  Error, Action, Store, Result, integrity_error, value_error, pure, raise, catch, require, fresh_id,
  ◌>>=◌, ◌>>◌,
}
use solana_agent.Env.{Env, sha256_json}
use solana_agent.Storage.Runs.{require_run}
use solana_agent.Storage.Commands.{
  PlannedCommand, find_command_by_idempotency, insert_planned_command, transition_command, Patch,
  no_patch,
}
use solana_agent.Storage.Approvals.{create_policy_decision}
use solana_agent.Authority.Redaction.{redact_mapping, redact_text}
use solana_agent.Authority.Keys.{codes}
use solana_agent.Authority.Inputs.{PolicyEngine}
use solana_agent.Authority.Approvals.{is_blank, request}

pub record CommandSpec : Type 0 where
  pub run_id : String
  pub step_id : String
  pub adapter : String
  pub operation : String
  pub arguments : Json
  pub cwd : String
  pub timeout_seconds : ℤ
  pub expected_state : Option String
  pub idempotency_key : Option String

-- A digit of `normalized_key`, in the case that the caller gave it.
abbrev is_hex : ℕ → Bool
is_hex c = (leb b'0' c && leb c b'9') || ((leb b'a' c && leb c b'f') || (leb b'A' c && leb c b'F'))

abbrev key_ok : Option String → Bool
key_ok none = true
key_ok (some key) = nat_eq (length (codes key)) 64 && all is_hex (codes key)

-- The tests of `CommandSpec.__post_init__`, which raises `ValueError` where one fails.
unfoldable pub spec_ok : CommandSpec → Bool
spec_ok spec =
    not (
      is_blank spec.run_id
      || (is_blank spec.step_id
          || (is_blank spec.adapter || (is_blank spec.operation || is_blank spec.cwd))))
    && (ltb_ℤ (pos 0) spec.timeout_seconds && key_ok spec.idempotency_key)

-- `build_command_idempotency_key`
unfoldable pub build_command_idempotency_key : Env → CommandSpec → String
build_command_idempotency_key env spec = sha256_json env (
    dict (
      ("adapter", text spec.adapter)
      ∷ ("arguments", spec.arguments)
      ∷ ("cwd", text spec.cwd)
      ∷ ("expected_state", optional_text spec.expected_state)
      ∷ ("operation", text spec.operation)
      ∷ ("run_id", text spec.run_id)
      ∷ ("step_id", text spec.step_id)
      ∷ ("timeout_seconds", number spec.timeout_seconds)
      ∷ []))

abbrev key_or : Option String → String → String
key_or none computed = computed
key_or (some key) computed = if key == "" then computed else key

unfoldable pub resolved_idempotency_key : Env → CommandSpec → String
unfolding build_command_idempotency_key
resolved_idempotency_key env spec =
    key_or spec.idempotency_key (build_command_idempotency_key env spec)

-- A decision of a validator: `decision` is one of the three words, `reason` is not blank.
pub record ValidationDecision : Type 0 where
  pub decision : PolicyEffect
  pub reason : String

pub record PlanOutcome : Type 0 where
  pub command : CommandRecord
  pub duplicate : Bool

abbrev ExecutionOutcome : Type 0
ExecutionOutcome = PlanOutcome

abbrev pub outcome : CommandRecord → Bool → PlanOutcome
outcome command duplicate = record { command = command; duplicate = duplicate }

-- `approval_service` is absent, or gives approvals the lifetime that it was made with.
pub record CommandJournal : Type 0 where
  pub policy_engine : Option PolicyEngine
  pub approval_service : Option ℤ

abbrev as_planned : CommandSpec → Json → String → PlannedCommand
as_planned spec arguments key = record {
  run_id = spec.run_id;
  step_id = spec.step_id;
  adapter = spec.adapter;
  operation = spec.operation;
  arguments = arguments;
  cwd = spec.cwd;
  timeout_seconds = spec.timeout_seconds;
  idempotency_key = key;
  expected_state = spec.expected_state;
}

-- `except sqlite3.IntegrityError`: another process planned the same command first.
abbrev pub duplicate_or_raise : String → Option CommandRecord → Action PlanOutcome
duplicate_or_raise e none = raise (integrity_error e)
duplicate_or_raise e (some c) = pure (outcome c true)

unfoldable pub after_conflict : String → String → Error → Action PlanOutcome
after_conflict run_id key (integrity_error e) =
    find_command_by_idempotency run_id key >>= duplicate_or_raise e
after_conflict run_id key e = raise e

unfoldable pub insert_new : CommandSpec → String → Action PlanOutcome
insert_new spec key = do
  id ← fresh_id "command-"
  command ← insert_planned_command id (as_planned spec spec.arguments key)
  pure (outcome command false)

unfoldable pub plan_new : CommandSpec → String → Option CommandRecord → Action PlanOutcome
unfolding insert_new after_conflict
plan_new spec key (some existing) = pure (outcome existing true)
plan_new spec key none = catch (insert_new spec key) (after_conflict spec.run_id key)

abbrev pub safe_spec : Env → CommandSpec → CommandSpec
safe_spec env spec = record spec { arguments = redact_mapping env spec.arguments }

unfoldable pub plan : Env → CommandSpec → Action PlanOutcome
unfolding plan_new
plan env spec = do
  require_run spec.run_id
  let key = resolved_idempotency_key env (safe_spec env spec)
  existing ← find_command_by_idempotency spec.run_id key
  plan_new (safe_spec env spec) key existing

abbrev pub coded : String → String → Json
coded code message = dict (("code", text code) ∷ ("message", text message) ∷ [])

module _ (env : Env) where
  unfoldable pub apply_validation_decision :
      CommandRecord → ValidationDecision → Action CommandRecord
  apply_validation_decision command d =
      let safe_reason = redact_text env d.reason in
      elim d.decision [
        | PolicyEffect.deny ↦ transition_command command.id rejected (record no_patch {
          policy_decision = some "deny";
          policy_reason = some safe_reason;
          error = some (coded "validation_rejected" safe_reason);
        })
        | PolicyEffect.require_approval ↦
            transition_command command.id approval_required (record no_patch {
              policy_decision = some "require_approval";
              policy_reason = some safe_reason;
            })
        | PolicyEffect.allow ↦
            transition_command command.id authorized
              (record no_patch { policy_decision = some "allow"; policy_reason = some safe_reason })
      ]

  unfoldable pub validate : String → ValidationDecision → Action CommandRecord
  unfolding apply_validation_decision
  validate command_id decision = do
    command ← transition_command command_id validating no_patch
    apply_validation_decision command decision

  unfoldable pub cancel : String → String → Action CommandRecord
  cancel command_id reason =
      transition_command command_id cancelled
        (record no_patch { error = some (coded "command_cancelled" (redact_text env reason)) })
