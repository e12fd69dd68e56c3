-- ===== src/Authority/Policy/Safety.antt =====
-- The policy and what it allows (solana_agent/authority/policy.py).
use solana_agent.Prelude.{
  String, ◌≡◌, ◌≢◌, refl, ◌⊎◌, inl, inr, Bool, true, false, not, ◌&&◌, Option, none, some, List, [],
  ◌∷◌, arith, Bool-cases, Option-cases, if◌then◌else◌, All,
}
use solana_agent.Json.{Json}
use solana_agent.Contracts.Authority.{PolicyContext, PolicyDecision, PolicyEffect}
use solana_agent.Contracts.Command.{CommandRecord}
use solana_agent.Env.{Env, FilePath}
use solana_agent.Authority.Redaction.{contains_redaction}
use solana_agent.Authority.Keys.{valid_public_key, valid_hash}
use solana_agent.Authority.Rules.{default_rules}
use solana_agent.Authority.Inputs.{
  PolicyEngine, is_material, mainnets, safe_clusters, named_cluster, cluster_in, is_none,
  over_limit, is_within, guarded_keys,
}
use solana_agent.Authority.Policy.{
  guard_path, guard_argument, guard_paths, guard_decision, evaluate, input_snapshot, target_path,
  text_argument, first_of_two,
}
use solana_agent.Authority.Policy.Restraint.{
  rule_effect, guard_decision-IsRestraint, table-NeverAllows, NeverAllows,
}

guard_none :
    (b : Bool) (d : PolicyDecision) {x : Option PolicyDecision}
    → (if b then some d else x) ≡ none
    → (b ≡ false) × (x ≡ none)
guard_none true d h = cc
guard_none false d h = (refl, h)

either : (n c : Bool) → (not n && not c) ≡ false → (n ≡ true) ⊎ (c ≡ true)
either n c h = ground arith

unless : (m x : Bool) → (m && x) ≡ false → m ≡ true → x ≡ false
unless m x h e = ground arith

not-false : (x : Bool) → not x ≡ false → x ≡ true
not-false x h = ground arith

module _ (env : Env) (engine : PolicyEngine) (command : CommandRecord)
    (context : PolicyContext) where
  abbrev snapshot : Json
  snapshot = input_snapshot env engine command context

  abbrev root : FilePath
  root = env.resolve context.workspace_root

  -- An operation that is allowed passed every guard, and the first matching rule allows it.
  pub allowed_by :
      (evaluate env engine command context).effect ≡ PolicyEffect.allow
      → (guard_decision env engine command context snapshot ≡ none)
        × (rule_effect engine.rules engine.profile command.adapter command.operation
            ≡ PolicyEffect.allow)
  unfolding evaluate rule_effect
  allowed_by h = elim (Option-cases (guard_decision env engine command context snapshot)) [
    | inl free ↦ (free, ground arith)
    | inr (d, caught) ↦ absurd (
        (guard_decision-IsRestraint env engine command snapshot context).effects d caught
          (ground arith))
  ]

  -- A text argument under the key names a path inside the workspace.
  abbrev IsInside : Option String → Type 0
  IsInside none = Unit
  IsInside (some value) = is_within root (target_path env engine root value) ≡ true

  abbrev StaysInside : String → Type 0
  StaysInside key = IsInside (text_argument key command.arguments)

  first_none : (x y : Option PolicyDecision) → first_of_two x y ≡ none → (x ≡ none) × (y ≡ none)
  first_none none y h = (refl, h)
  first_none (some d) y h = cc

  argument-IsInside :
      (key : String) (given : Option String)
      → guard_argument env engine command root snapshot key given ≡ none
      → IsInside given
  unfolding guard_argument guard_path
  argument-IsInside key none h = tt
  argument-IsInside key (some v) h = not-false _ (guard_none _ _ h).0

  paths_inside :
      (keys : List String)
      → guard_paths env engine command root snapshot keys ≡ none
      → All StaysInside keys
  unfolding guard_paths
  paths_inside [] h = tt
  paths_inside (key ∷ keys) h =
      let (now, later) = first_none _ (guard_paths env engine command root snapshot keys) h in
      (argument-IsInside key (text_argument key command.arguments) now, paths_inside keys later)

  -- What holds of a command that no guard stops.
  pub record Unguarded : Type 0 where
    pub clean : contains_redaction command.arguments ≡ false
    pub not_mainnet : cluster_in mainnets (named_cluster context.cluster) ≡ false
    pub cluster_ok :
        (is_none (named_cluster context.cluster) ≡ true)
        ⊎ (cluster_in safe_clusters (named_cluster context.cluster) ≡ true)
    pub material_ok :
        (is_material command.adapter command.operation ≡ false)
        ⊎ ((is_none (named_cluster context.cluster) ≡ false)
            × (valid_public_key context.wallet ≡ true)
            × (is_none context.max_lamports ≡ false)
            × (valid_hash context.runtime_contract_hash ≡ true))
    pub within_limit : over_limit engine.max_lamports context.max_lamports ≡ false
    pub cwd_inside : is_within root (env.resolve command.cwd) ≡ true
    pub arguments_inside : All StaysInside guarded_keys

  unguarded : guard_decision env engine command context snapshot ≡ none → Unguarded
  unfolding guard_decision
  unguarded h =
      let material = is_material command.adapter command.operation in
      let (clean, h1) = guard_none (contains_redaction command.arguments) _ h in
      let (not_mainnet, h2) =
        guard_none (cluster_in mainnets (named_cluster context.cluster)) _ h1 in
      let (listed, h3) = guard_none _ _ h2 in
      let (named, h4) = guard_none _ _ h3 in
      let (wallet, h5) = guard_none _ _ h4 in
      let (limit, h6) = guard_none _ _ h5 in
      let (contract, h7) = guard_none _ _ h6 in
      let (bound, h8) = guard_none _ _ h7 in
      let (cwd, h9) = guard_none _ _ h8 in
      record {
        clean = clean;
        not_mainnet = not_mainnet;
        cluster_ok = either _ _ listed;
        material_ok = elim (Bool-cases material) [
          | inl m ↦ inr (
            unless _ _ named m,
            not-false _ (unless _ _ wallet m),
            unless _ _ limit m,
            not-false _ (unless _ _ contract m),
          )
          | inr other ↦ inl other
        ];
        within_limit = bound;
        cwd_inside = not-false _ cwd;
        arguments_inside = paths_inside guarded_keys h9;
      }

  -- Whatever the rules are, a command that the policy allows holds no redacted secret, does not name
  -- mainnet, names a listed cluster or none, keeps to the spending limit, stays inside the workspace
  -- with its working directory and with every path argument, and, if it is material, names a cluster,
  -- a valid wallet, a limit and a valid hash of a runtime contract.
  pub allow-Unguarded :
      (evaluate env engine command context).effect ≡ PolicyEffect.allow → Unguarded
  allow-Unguarded h = unguarded (allowed_by h).0

  -- Under the default rules no profile allows a material operation: it is denied, or waits for an
  -- operator's approval.
  pub material_never_allowed :
      engine.rules ≡ default_rules
      → is_material command.adapter command.operation ≡ true
      → (evaluate env engine command context).effect ≢ PolicyEffect.allow
  unfolding NeverAllows
  material_never_allowed rules material allowed =
      table-NeverAllows engine.profile command.adapter command.operation material
        (rw (← rules) (allowed_by allowed).1)
