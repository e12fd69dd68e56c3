-- ===== src/Authority/Rules.antt =====
-- The rule table of solana_agent/authority/policy.py.
use solana_agent.Prelude.{String, Bool, List, [], ◌∷◌, ◌&&◌, ◌||◌, ◌==◌, nat_eq, any, ℕ}
use solana_agent.Contracts.Authority.{PolicyEffect, RiskLevel, low, medium, high, critical}

pub data PolicyProfile : Type 0 where
  read_only local_safe devnet_safe : PolicyProfile

abbrev pub profile_value : PolicyProfile → String
profile_value read_only = "read-only"
profile_value local_safe = "local-safe"
profile_value devnet_safe = "devnet-safe"

abbrev ordinal : PolicyProfile → ℕ
ordinal read_only = 0
ordinal local_safe = 1
ordinal devnet_safe = 2

pub record PolicyRule : Type 0 where
  pub id : String
  pub profiles : List PolicyProfile
  pub adapter : String
  pub operation : String
  pub effect : PolicyEffect
  pub risk : RiskLevel
  pub reason : String
  pub required_evidence : List String

-- `PolicyRule.matches`, which reads the adapter and the operation of the command.
unfoldable pub matches : PolicyRule → PolicyProfile → String → String → Bool
matches rule profile adapter operation =
    any (λ p. nat_eq (ordinal p) (ordinal profile)) rule.profiles
    && ((rule.adapter == "*" || rule.adapter == adapter)
        && (rule.operation == "*" || rule.operation == operation))

-- `tuple(PolicyProfile)`
abbrev all_profiles : List PolicyProfile
all_profiles = read_only ∷ local_safe ∷ devnet_safe ∷ []

abbrev safe_profiles : List PolicyProfile
safe_profiles = local_safe ∷ devnet_safe ∷ []

abbrev pub policy_version : String
policy_version = "solana-agent-policy/1.4.0"

abbrev rule :
    String
    → List PolicyProfile
    → String
    → String
    → PolicyEffect
    → RiskLevel
    → String
    → List String
    → PolicyRule
rule id profiles adapter operation effect risk reason required_evidence = record {
  id = id;
  profiles = profiles;
  adapter = adapter;
  operation = operation;
  effect = effect;
  risk = risk;
  reason = reason;
  required_evidence = required_evidence;
}

-- `DEFAULT_RULES`
unfoldable pub default_rules : List PolicyRule
default_rules =
    rule "inspect-environment" all_profiles "doctor" "inspect" PolicyEffect.allow low
      "environment inspection is read-only" []
    ∷ rule "read-workspace" all_profiles "filesystem" "read" PolicyEffect.allow low
        "workspace reads are allowed inside the configured root" []
    ∷ rule "create-workspace" safe_profiles "filesystem" "create_workspace" PolicyEffect.allow
        medium "new workspace creation is allowed when the destination does not exist"
        ("path.created" ∷ [])
    ∷ rule "overwrite-workspace" safe_profiles "filesystem" "overwrite"
        PolicyEffect.require_approval high
        "overwriting workspace content requires operator approval"
        ("path.hash.before" ∷ "path.hash.after" ∷ [])
    ∷ rule "anchor-build" safe_profiles "anchor" "build" PolicyEffect.allow low
        "local Anchor builds are allowed" ("build.result" ∷ [])
    ∷ rule "anchor-scaffold" safe_profiles "anchor" "scaffold" PolicyEffect.allow medium
        "Anchor scaffolding is allowed inside the governed workspace" ("workspace.created" ∷ [])
    ∷ rule "apply-counter-template" safe_profiles "counter_template" "apply" PolicyEffect.allow
        medium "the packaged counter template may be applied inside a newly scaffolded workspace"
        ("template.files" ∷ "program.id" ∷ [])
    ∷ rule "anchor-test" safe_profiles "anchor" "test" PolicyEffect.allow low
        "local Anchor tests are allowed" ("test.result" ∷ [])
    ∷ rule "package-install" safe_profiles "package" "install" PolicyEffect.allow medium
        "locked package installation is allowed inside the governed workspace"
        ("dependencies.installed" ∷ [])
    ∷ rule "package-run" safe_profiles "package" "run" PolicyEffect.require_approval high
        "declared package scripts can execute project code and require operator approval"
        ("script.result" ∷ [])
    ∷ rule "rpc-read" all_profiles "solana_rpc" "*" PolicyEffect.allow low
        "allowlisted Solana JSON-RPC reads are non-material" ("rpc.response" ∷ [])
    ∷ rule "local-validator" safe_profiles "solana" "start_validator" PolicyEffect.allow medium
        "starting a local validator is allowed" ("validator.health" ∷ [])
    ∷ rule "simulate-transaction" safe_profiles "solana" "simulate" PolicyEffect.allow low
        "transaction simulation does not submit state changes" ("simulation.result" ∷ [])
    ∷ rule "verify-program" all_profiles "solana" "verify_program" PolicyEffect.allow low
        "program verification is a read-only RPC operation" ("program.executable" ∷ [])
    ∷ rule "require-wallet-balance" all_profiles "solana" "require_balance" PolicyEffect.allow low
        "wallet balance verification is a read-only RPC operation" ("balance.observed" ∷ [])
    ∷ rule "assemble-evidence" all_profiles "evidence" "assemble" PolicyEffect.allow low
        "local evidence assembly is allowed" ("evidence.manifest" ∷ [])
    ∷ rule "devnet-airdrop" (devnet_safe ∷ []) "solana" "airdrop" PolicyEffect.require_approval
        medium "devnet airdrops require explicit approval"
        ("transaction.signature" ∷ "balance.after" ∷ [])
    ∷ rule "devnet-sign" (devnet_safe ∷ []) "solana" "sign" PolicyEffect.require_approval high
        "transaction signing requires explicit approval" ("transaction.message_hash" ∷ [])
    ∷ rule "devnet-deploy" (devnet_safe ∷ []) "solana" "deploy" PolicyEffect.require_approval high
        "devnet deployment requires explicit approval"
        ("program.executable" ∷ "transaction.signature" ∷ [])
    ∷ rule "anchor-devnet-deploy" (devnet_safe ∷ []) "anchor" "deploy" PolicyEffect.require_approval
        high "Anchor devnet deployment requires explicit approval"
        ("program.executable" ∷ "transaction.signature" ∷ [])
    ∷ rule "anchor-local-deploy" (local_safe ∷ []) "anchor" "deploy" PolicyEffect.require_approval
        high "Anchor local deployment remains an auditable material action"
        ("program.executable" ∷ "transaction.signature" ∷ [])
    ∷ rule "devnet-invoke" (devnet_safe ∷ []) "solana" "invoke" PolicyEffect.require_approval high
        "mutable devnet invocation requires explicit approval"
        ("transaction.signature" ∷ "account.state.after" ∷ [])
    ∷ rule "deny-upgrade" all_profiles "solana" "upgrade" PolicyEffect.deny critical
        "program upgrades are disabled in the MVP" []
    ∷ rule "deny-upgrade-authority" all_profiles "solana" "set_upgrade_authority" PolicyEffect.deny
        critical "upgrade-authority changes are disabled in the MVP" []
    ∷ []
