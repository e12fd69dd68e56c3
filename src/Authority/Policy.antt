-- ===== src/Authority/Policy.antt =====
-- `PolicyEngine` (solana_agent/authority/policy.py): the guards, then the first matching rule, then
-- a denial.
pub mod Snapshot
pub mod Restraint
pub mod Safety
pub mod ReadOnly
use Prim.Native.String.{◌++◌}
use solana_agent.Prelude.{
  String, Bool, true, false, not, ◌&&◌, ◌==◌, Option, none, some, List, [], ◌∷◌, if◌then◌else◌,
}
use solana_agent.Json.{Json, text, dict, get_key, optional_text, optional_number}
use solana_agent.Contracts.Authority.{
  PolicyContext, PolicyDecision, PolicyEffect, RiskLevel, high, critical,
}
use solana_agent.Contracts.Command.{CommandRecord}
use solana_agent.Env.{Env, FilePath, sha256_json}
use solana_agent.Authority.Redaction.{redacted, contains_redaction}
use solana_agent.Authority.Rules.{PolicyProfile, PolicyRule, profile_value, matches}
use solana_agent.Authority.Keys.{valid_public_key, valid_hash}
use solana_agent.Authority.Inputs.{
  PolicyEngine, is_material, mainnets, safe_clusters, named_cluster, cluster_in, is_none,
  over_limit, is_within, is_absolute, guarded_keys, command_snapshot,
}

abbrev first_of_two : Option PolicyDecision → Option PolicyDecision → Option PolicyDecision
first_of_two none rest = rest
first_of_two (some d) rest = some d

-- `isinstance(value, str)`
abbrev pub text_argument : String → Json → Option String
text_argument key arguments = elim (get_key key arguments) [ some (text s) ↦ some s | _ ↦ none ]

abbrev creates_workspace : CommandRecord → Bool
creates_workspace c = c.adapter == "filesystem" && c.operation == "create_workspace"

abbrev unless_guarded : Option PolicyDecision → PolicyDecision → PolicyDecision
unless_guarded (some d) other = d
unless_guarded none other = other

module _ (env : Env) (engine : PolicyEngine) where
  unfoldable pub input_snapshot : CommandRecord → PolicyContext → Json
  unfolding command_snapshot
  input_snapshot command context = dict (
      ("command", command_snapshot command)
      ∷ (
        "context",
        dict (
            ("workspace_root", text (env.path_text (env.resolve context.workspace_root)))
            ∷ ("cluster", optional_text context.cluster)
            ∷ (
              "wallet",
              if valid_public_key context.wallet
                  then optional_text context.wallet
                  else text redacted,
            )
            ∷ ("program_id", optional_text context.program_id)
            ∷ ("max_lamports", optional_number context.max_lamports)
            ∷ ("runtime_contract_hash", optional_text context.runtime_contract_hash)
            ∷ []),
      )
      ∷ ("profile", text (profile_value engine.profile))
      ∷ ("policy_version", text engine.version)
      ∷ [])

  -- `_decision`
  unfoldable pub rule_decision : PolicyRule → Json → PolicyDecision
  rule_decision rule snapshot = record {
    effect = rule.effect;
    rule_id = rule.id;
    policy_version = engine.version;
    reason = rule.reason;
    risk = rule.risk;
    required_evidence = rule.required_evidence;
    input_snapshot = snapshot;
    input_hash = sha256_json env snapshot;
  }

  -- `_deny`
  unfoldable pub denial : String → String → RiskLevel → Json → PolicyDecision
  denial rule_id reason risk snapshot = record {
    effect = PolicyEffect.deny;
    rule_id = rule_id;
    policy_version = engine.version;
    reason = reason;
    risk = risk;
    required_evidence = [];
    input_snapshot = snapshot;
    input_hash = sha256_json env snapshot;
  }

  workspace_exists : Json → PolicyDecision
  workspace_exists snapshot = record {
    effect = PolicyEffect.require_approval;
    rule_id = "workspace-exists";
    policy_version = engine.version;
    reason = "creating over an existing workspace requires approval";
    risk = high;
    required_evidence = "path.hash.before" ∷ "path.hash.after" ∷ [];
    input_snapshot = snapshot;
    input_hash = sha256_json env snapshot;
  }

module _ (env : Env) (engine : PolicyEngine) where
  -- `(root / target).resolve() if not target.is_absolute() else target.resolve()`
  abbrev pub target_path : FilePath → String → FilePath
  target_path root value =
      if is_absolute value then env.resolve value else env.resolve_under root value

  -- One round of the loop over the path arguments.
  unfoldable pub guard_path :
      CommandRecord → FilePath → Json → String → String → Option PolicyDecision
  unfolding workspace_exists
  guard_path command root snapshot key value =
      let resolved = target_path root value in
      if not (is_within root resolved)
      then some (
          denial env engine "path-escape"
            ("argument " ++ (key ++ " escapes the configured workspace")) critical snapshot)
      else if creates_workspace command && env.exists resolved
      then some (workspace_exists env engine snapshot)
      else none

  unfoldable pub guard_argument :
      CommandRecord → FilePath → Json → String → Option String → Option PolicyDecision
  unfolding guard_path
  guard_argument command root snapshot key none = none
  guard_argument command root snapshot key (some value) = guard_path command root snapshot key value

  unfoldable pub guard_paths : CommandRecord → FilePath → Json → List String → Option PolicyDecision
  unfolding guard_argument
  guard_paths command root snapshot [] = none
  guard_paths command root snapshot (key ∷ keys) =
      let rest = guard_paths command root snapshot keys in
      first_of_two (guard_argument command root snapshot key (text_argument key command.arguments))
        rest

  -- `_guard_decision`
  unfoldable pub guard_decision : CommandRecord → PolicyContext → Json → Option PolicyDecision
  unfolding guard_paths is_material is_within
  guard_decision command context snapshot =
      let deny = λ (rule_id reason : String) (risk : RiskLevel).
        some (denial env engine rule_id reason risk snapshot) in
      let cluster = named_cluster context.cluster in
      let material = is_material command.adapter command.operation in
      let root = env.resolve context.workspace_root in
      if contains_redaction command.arguments
      then deny "secret-input" "secret material was detected and redacted" critical
      else if cluster_in mainnets cluster
      then deny "cluster-mainnet" "mainnet operations are disabled in the MVP" critical
      else if not (is_none cluster) && not (cluster_in safe_clusters cluster)
      then deny "cluster-not-allowlisted" "cluster endpoint is not allowlisted by the active policy"
          critical
      else if material && is_none cluster
      then deny "cluster-unspecified" "material Solana operations require an explicit cluster" high
      else if material && not (valid_public_key context.wallet)
      then deny "wallet-invalid" "a valid public Solana wallet is required" critical
      else if material && is_none context.max_lamports
      then deny "spend-unspecified" "material Solana operations require a lamport limit" high
      else if material && not (valid_hash context.runtime_contract_hash)
      then deny "runtime-contract-invalid"
          "material Solana operations require a valid runtime contract hash" high
      else if over_limit engine.max_lamports context.max_lamports
      then deny "spend-limit" "requested lamports exceed the active policy limit" critical
      else if not (is_within root (env.resolve command.cwd))
      then deny "path-escape" "command cwd escapes the configured workspace" critical
      else guard_paths command root snapshot guarded_keys

-- `for rule in self.rules: if rule.matches(…)`
unfoldable pub first_match : List PolicyRule → PolicyProfile → String → String → Option PolicyRule
unfolding matches
first_match [] profile adapter operation = none
first_match (r ∷ rs) profile adapter operation =
    let rest = first_match rs profile adapter operation in
    if matches r profile adapter operation then some r else rest

module _ (env : Env) (engine : PolicyEngine) where
  abbrev by_rule : Json → Option PolicyRule → PolicyDecision
  by_rule snapshot none =
      denial env engine "default-deny" "operation is not allowlisted by the active policy profile"
        high snapshot
  by_rule snapshot (some rule) = rule_decision env engine rule snapshot

  unfoldable pub evaluate : CommandRecord → PolicyContext → PolicyDecision
  unfolding first_match rule_decision denial
  evaluate command context =
      let snapshot = input_snapshot env engine command context in
      unless_guarded (guard_decision env engine command context snapshot) (
        by_rule snapshot
          (first_match engine.rules engine.profile command.adapter command.operation))
