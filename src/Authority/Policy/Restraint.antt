-- ===== src/Authority/Policy/Restraint.antt =====
-- The guards, the table of rules and their effects (solana_agent/authority/policy.py).
use solana_agent.Prelude.{
  String, ◌≡◌, ◌≢◌, subst, sym, any, ◌⊎◌, inl, inr, Bool, true, false, false≢true, ◌==◌, eq_iff,
  Option, none, some, List, [], ◌∷◌, arith, Bool-cases, if◌then◌else◌, All,
}
use solana_agent.Json.{Json}
use solana_agent.Contracts.Authority.{PolicyContext, PolicyDecision, PolicyEffect, RiskLevel}
use solana_agent.Contracts.Command.{CommandRecord}
use solana_agent.Env.{Env, FilePath}
use solana_agent.Authority.Rules.{
  PolicyProfile, PolicyRule, read_only, local_safe, devnet_safe, default_rules,
}
use solana_agent.Authority.Inputs.{PolicyEngine, material_solana_operations, is_material}
use solana_agent.Authority.Policy.{
  workspace_exists, first_of_two, guard_path, guard_argument, denial, guard_paths, guard_decision,
  first_match, text_argument,
}

-- The effect of the first matching rule, `deny` where there is none.
unfoldable pub rule_effect : List PolicyRule → PolicyProfile → String → String → PolicyEffect
rule_effect rules profile adapter operation = elim (first_match rules profile adapter operation) [
  | none ↦ PolicyEffect.deny
  | some r ↦ r.effect
]

-- A text that is one of a list of words has what each of the words has.
one_of :
    (P : String → Type 0) (o : String) (words : List String)
    → any (λ w. o == w) words ≡ true
    → All P words
    → P o
one_of P o [] h all = absurd (false≢true h)
one_of P o (w ∷ words) h all = elim (Bool-cases (o == w)) [
  | inl same ↦ subst P (sym ((eq_iff o w).0 same)) all.0
  | inr other ↦ one_of P o words (rw other at h) all.1
]

material_cases :
    (adapter operation : String)
    → is_material adapter operation ≡ true
    → ((adapter ≡ "solana") × (any (λ o. operation == o) material_solana_operations ≡ true))
      ⊎ ((adapter ≡ "anchor") × (operation ≡ "deploy"))
unfolding is_material
material_cases adapter operation h =
    ground (arith, eq_iff adapter "solana", eq_iff adapter "anchor", eq_iff operation "deploy")

-- The adapter and the operation are one of the five pairs.
pub material_ind :
    (P : String → String → Type 0) (adapter operation : String)
    → is_material adapter operation ≡ true
    → All (P "solana") material_solana_operations
    → P "anchor" "deploy"
    → P adapter operation
material_ind P adapter operation h solana anchor = elim (material_cases adapter operation h) [
  | inl (same, listed) ↦
      subst (λ a. P a operation) (sym same)
        (one_of (P "solana") operation material_solana_operations listed solana)
  | inr (same, deploy) ↦
      subst (λ a. P a operation) (sym same) (subst (P "anchor") (sym deploy) anchor)
]

unfoldable pub NeverAllows : PolicyProfile → String → String → Type 0
NeverAllows profile adapter operation =
    rule_effect default_rules profile adapter operation ≢ PolicyEffect.allow

-- The table of rules allows no material operation under any profile.
pub table-NeverAllows :
    (profile : PolicyProfile) (adapter operation : String)
    → is_material adapter operation ≡ true
    → NeverAllows profile adapter operation
unfolding NeverAllows rule_effect first_match default_rules
table-NeverAllows read_only adapter operation h =
    material_ind (NeverAllows read_only) adapter operation h
      ((λ e. cc), ((λ e. cc), ((λ e. cc), ((λ e. cc), tt)))) (λ e. cc)
table-NeverAllows local_safe adapter operation h =
    material_ind (NeverAllows local_safe) adapter operation h
      ((λ e. cc), ((λ e. cc), ((λ e. cc), ((λ e. cc), tt)))) (λ e. cc)
table-NeverAllows devnet_safe adapter operation h =
    material_ind (NeverAllows devnet_safe) adapter operation h
      ((λ e. cc), ((λ e. cc), ((λ e. cc), ((λ e. cc), tt)))) (λ e. cc)

-- A guard answers with a denial or asks for approval.
pub record IsRestraint (o : Option PolicyDecision) : Type 0 where
  pub effects : (d : PolicyDecision) → o ≡ some d → d.effect ≢ PolicyEffect.allow

IsRestraint-none : IsRestraint none
IsRestraint-none = record { effects = λ d e. cc }

IsRestraint-if :
    (b : Bool) (x y : Option PolicyDecision)
    → IsRestraint x
    → IsRestraint y
    → IsRestraint (if b then x else y)
IsRestraint-if true x y hx hy = hx
IsRestraint-if false x y hx hy = hy

IsRestraint-first :
    (x y : Option PolicyDecision) → IsRestraint x → IsRestraint y → IsRestraint (first_of_two x y)
IsRestraint-first none y hx hy = hy
IsRestraint-first (some d) y hx hy = hx

module _ (env : Env) (engine : PolicyEngine) where
  denial-IsRestraint :
      (rule_id reason : String) (risk : RiskLevel) (snapshot : Json)
      → IsRestraint (some (denial env engine rule_id reason risk snapshot))
  unfolding denial
  denial-IsRestraint rule_id reason risk snapshot = record { effects = λ d e. ground arith }

  workspace_exists-IsRestraint :
      (snapshot : Json) → IsRestraint (some (workspace_exists env engine snapshot))
  unfolding workspace_exists
  workspace_exists-IsRestraint snapshot = record { effects = λ d e. ground arith }

module _ (env : Env) (engine : PolicyEngine) (command : CommandRecord) (snapshot : Json) where
  guard_argument-IsRestraint :
      (root : FilePath) (key : String) (value : Option String)
      → IsRestraint (guard_argument env engine command root snapshot key value)
  unfolding guard_argument guard_path
  guard_argument-IsRestraint root key none = IsRestraint-none
  guard_argument-IsRestraint root key (some value) =
      search (IsRestraint-if, IsRestraint-none, denial-IsRestraint, workspace_exists-IsRestraint)

  guard_paths-IsRestraint :
      (root : FilePath) (keys : List String)
      → IsRestraint (guard_paths env engine command root snapshot keys)
  unfolding guard_paths
  guard_paths-IsRestraint root [] = IsRestraint-none
  guard_paths-IsRestraint root (key ∷ keys) =
      IsRestraint-first _ _
        (guard_argument-IsRestraint root key (text_argument key command.arguments))
        (guard_paths-IsRestraint root keys)

  pub guard_decision-IsRestraint :
      (context : PolicyContext) → IsRestraint (guard_decision env engine command context snapshot)
  unfolding guard_decision
  guard_decision-IsRestraint context =
      search (IsRestraint-if, denial-IsRestraint, guard_paths-IsRestraint) depth 14
