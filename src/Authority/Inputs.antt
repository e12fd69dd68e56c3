-- ===== src/Authority/Inputs.antt =====
-- What the guards of `PolicyEngine` read (solana_agent/authority/policy.py).
use Prim.Native.Char.{code}
use solana_agent.Prelude.{
  ℕ, ◌+◌, String, Bool, true, false, ◌&&◌, ◌||◌, ◌==◌, Option, none, some, List, [], ◌∷◌, leb,
  nat_eq, any, if◌then◌else◌,
}
use solana_agent.Prelude.Int.{ℤ, pos, ltb_ℤ}
use solana_agent.Json.{Json, text, number, dict, optional_text}
use solana_agent.Contracts.Command.{CommandRecord}
use solana_agent.Env.{FilePath}
use solana_agent.Authority.Rules.{PolicyProfile, PolicyRule}
use solana_agent.Authority.Keys.{codes}

-- `__init__` refuses a negative `max_lamports`.
pub record PolicyEngine : Type 0 where
  pub profile : PolicyProfile
  pub rules : List PolicyRule
  pub version : String
  pub max_lamports : ℕ

abbrev pub material_solana_operations : List String
material_solana_operations = "airdrop" ∷ "sign" ∷ "deploy" ∷ "invoke" ∷ []

-- `(adapter, operation) in MATERIAL_ADAPTER_OPERATIONS`
unfoldable pub is_material : String → String → Bool
is_material adapter operation =
    (adapter == "solana" && any (λ o. operation == o) material_solana_operations)
    || (adapter == "anchor" && operation == "deploy")

-- `text.lower() == word` for a word of lower-case ASCII. No other character lowers to one of the
-- letters of the words below, so the ASCII letters are enough.
abbrev lower_code : ℕ → ℕ
lower_code c = if leb b'A' c && leb c b'Z' then c + 32 else c

lower_eq_codes : List ℕ → List ℕ → Bool
lower_eq_codes [] [] = true
lower_eq_codes (c ∷ cs) (d ∷ ds) = nat_eq (lower_code c) d && lower_eq_codes cs ds
lower_eq_codes _ _ = false

unfoldable pub lower_in : String → List String → Bool
unfolding lower_eq_codes
lower_in s words = any (λ w. lower_eq_codes (codes s) (codes w)) words

abbrev pub mainnets : List String
mainnets = "mainnet" ∷ "mainnet-beta" ∷ []

abbrev pub safe_clusters : List String
safe_clusters =
    "devnet" ∷ "localnet" ∷ "localhost" ∷ "http://127.0.0.1:8899" ∷ "http://localhost:8899"
    ∷ "https://api.devnet.solana.com" ∷ []

-- `context.cluster` as a condition: a text that is not empty.
abbrev pub named_cluster : Option String → Option String
named_cluster none = none
named_cluster (some s) = if s == "" then none else some s

abbrev pub cluster_in : List String → Option String → Bool
cluster_in words none = false
cluster_in words (some s) = lower_in s words

abbrev pub is_none {ℓ} : {A : Type ℓ} → Option A → Bool
is_none none = true
is_none (some _) = false

abbrev pub over_limit : ℕ → Option ℤ → Bool
over_limit limit none = false
over_limit limit (some n) = ltb_ℤ n (pos 0) || ltb_ℤ (pos limit) n

-- `path == root or root in path.parents`
unfoldable pub is_within : FilePath → FilePath → Bool
is_within [] path = true
is_within (r ∷ root) [] = false
is_within (r ∷ root) (p ∷ path) = r == p && is_within root path

-- `Path(value).is_absolute()`
abbrev pub is_absolute : String → Bool
is_absolute String.[] = false
is_absolute (String.◌∷◌ c _) = nat_eq (code c) b'/'

abbrev pub guarded_keys : List String
guarded_keys = "path" ∷ "destination" ∷ "workspace" ∷ "program_path" ∷ []

-- The part of the input snapshot under "command", which `ApprovalService.consume` compares.
unfoldable pub command_snapshot : CommandRecord → Json
command_snapshot c = dict (
    ("id", text c.id)
    ∷ ("run_id", text c.run_id)
    ∷ ("adapter", text c.adapter)
    ∷ ("operation", text c.operation)
    ∷ ("arguments", c.arguments)
    ∷ ("cwd", text c.cwd)
    ∷ ("timeout_seconds", number c.timeout_seconds)
    ∷ ("expected_state", optional_text c.expected_state)
    ∷ [])
