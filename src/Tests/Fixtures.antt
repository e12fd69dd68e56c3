-- ===== src/Tests/Fixtures.antt =====
-- A machine, a journal with one run, one command and one approval, and a policy.
use Prim.Native.String.{◌++◌}
use solana_agent.Prelude.{ℕ, zero, suc, String, false, none, some, [], ◌∷◌, ◌==◌}
use solana_agent.Prelude.Int.{pos}
use solana_agent.Json.{text, dict}
use solana_agent.Contracts.Authority.{
  PolicyContext, PolicyEffect, PolicyDecisionRecord, ApprovalRecord, low, approved,
}
use solana_agent.Contracts.Command.{CommandRecord, planned}
use solana_agent.Contracts.Lifecycle.{RunRecord, created}
use solana_agent.Exec.{Store}
use solana_agent.Execution.Executor.{Executor, returned}
use solana_agent.Env.{Env, FilePath}
use solana_agent.Storage.Tables.{Tables, EventRecord}
use solana_agent.Authority.Rules.{default_rules, local_safe, policy_version}
use solana_agent.Authority.Inputs.{PolicyEngine, command_snapshot}
use solana_agent.Execution.Journal.{CommandSpec, CommandJournal}

abbrev under : FilePath → String → FilePath
under [] name = name ∷ []
under (part ∷ root) name = part ∷ under root name

abbrev numeral : ℕ → String
numeral zero = ""
numeral (suc n) = "1" ++ numeral n

abbrev pub machine : Env
machine = record {
  sha256_hex = λ s. "#" ++ s;
  canonical_json = λ v. "{}";
  error_text = λ e. "error";
  text_secret_sub = λ s. s;
  sensitive_key = λ k. k == "private_key";
  secret_value = λ s. s == "hunter2";
  resolve = λ s. s ∷ [];
  resolve_under = under;
  exists = λ p. false;
  path_text = λ p. "/work";
}

abbrev pub run : RunRecord
run = record {
  id = "run";
  mission_id = "mission";
  status = created;
  metadata = dict [];
  policy_snapshot = none;
  policy_snapshot_hash = none;
  error = none;
  created_at = 0;
  updated_at = 0;
}

abbrev pub command : CommandRecord
command = record {
  id = "c";
  run_id = "run";
  step_id = "step";
  adapter = "filesystem";
  operation = "read";
  arguments = dict (("path", text "notes") ∷ []);
  cwd = "/work";
  timeout_seconds = pos 5;
  idempotency_key = "key";
  status = planned;
  expected_state = none;
  policy_decision = none;
  policy_reason = none;
  policy_decision_id = none;
  approval_id = none;
  started_at = none;
  finished_at = none;
  exit_code = none;
  result = none;
  error = none;
  stdout_artifact_id = none;
  stderr_artifact_id = none;
  created_at = 0;
  updated_at = 0;
}

abbrev pub upgrade : CommandRecord
upgrade = record command { adapter = "anchor"; operation = "deploy" }

abbrev pub decision : PolicyDecisionRecord
decision = record {
  id = "decision";
  run_id = "run";
  command_id = "c";
  effect = PolicyEffect.require_approval;
  rule_id = "rule";
  policy_version = policy_version;
  reason = "reason";
  risk = low;
  required_evidence = [];
  input_snapshot = dict (("command", command_snapshot command) ∷ []);
  input_hash = "#{}";
  created_at = 0;
}

abbrev pub approval : ApprovalRecord
approval = record {
  id = "approval";
  run_id = "run";
  command_id = "c";
  policy_decision_id = "decision";
  manifest = dict [];
  manifest_hash = "#{}";
  status = approved;
  requested_at = 0;
  expires_at = 100;
  decided_at = some 1;
  approved_by = some "operator";
  note = none;
  consumed_at = none;
}

abbrev planned_event : EventRecord
planned_event = record {
  id = "e";
  run_id = "run";
  command_id = some "c";
  sequence = 1;
  event_type = "command.planned";
  payload = dict [];
  created_at = 0;
}

abbrev pub tables : Tables
tables = record {
  runs = run ∷ [];
  commands = command ∷ [];
  events = planned_event ∷ [];
  artifacts = [];
  policy_decisions = decision ∷ [];
  approvals = approval ∷ [];
  mission_steps = [];
}

-- One reading of the clock each second, and identifiers of one more digit each time.
abbrev pub store : Store
store = record { tables = tables; clock = λ n. n; uuids = numeral; calls = [] }

abbrev pub engine : PolicyEngine
engine = record {
  profile = local_safe;
  rules = default_rules;
  version = policy_version;
  max_lamports = 1000;
}

abbrev pub context : PolicyContext
context = record {
  workspace_root = "/work";
  cluster = some "devnet";
  wallet = none;
  program_id = none;
  max_lamports = none;
  runtime_contract_hash = none;
}

abbrev pub spec : CommandSpec
spec = record {
  run_id = "run";
  step_id = "step";
  adapter = "filesystem";
  operation = "read";
  arguments = dict (("path", text "notes") ∷ []);
  cwd = "/work";
  timeout_seconds = pos 5;
  expected_state = none;
  idempotency_key = none;
}

abbrev pub executor : Executor
executor request =
    returned (record { exit_code = pos 0; stdout = "done"; stderr = ""; metadata = dict [] })

abbrev pub journal : CommandJournal
journal = record { policy_engine = some engine; approval_service = some (pos 60) }
