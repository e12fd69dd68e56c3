-- ===== src/Missions/Definitions.antt =====
-- The dicts and the hashes of missions and of runtime contracts (solana_agent/contracts/mission.py).
use Prim.Native.String.{◌++◌}
use solana_agent.Prelude.{
  String, Bool, true, false, ◌==◌, ◌||◌, Option, none, some, List, [], ◌∷◌, if◌then◌else◌,
}
use solana_agent.Prelude.Int.{ℤ, pos, ltb_ℤ}
use solana_agent.Json.{
  Json, text, boolean, number, dict, array_of, texts, optional_text, optional_number,
}
use solana_agent.Contracts.Mission.{
  MissionInputDefinition, CheckDefinition, MissionStepDefinition, MissionDefinition,
}
use solana_agent.Exec.{Error, value_error}
use solana_agent.Env.{Env, sha256_json}
use solana_agent.Authority.Keys.{valid_public_key}

unfoldable pub check_dicts : List CheckDefinition → List Json
check_dicts [] = []
check_dicts (c ∷ cs) =
    dict (("type", text c.type) ∷ ("parameters", c.parameters) ∷ []) ∷ check_dicts cs

unfoldable pub step_dict : MissionStepDefinition → Json
unfolding check_dicts
step_dict s = dict (
    ("id", text s.id)
    ∷ ("adapter", text s.adapter)
    ∷ ("operation", text s.operation)
    ∷ ("depends_on", array_of (texts s.depends_on))
    ∷ ("arguments", s.arguments)
    ∷ ("cwd", text s.cwd)
    ∷ ("timeout_seconds", number s.timeout_seconds)
    ∷ ("preconditions", array_of (check_dicts s.preconditions))
    ∷ ("acceptance", array_of (check_dicts s.acceptance))
    ∷ [])

unfoldable pub step_dicts : List MissionStepDefinition → List Json
unfolding step_dict
step_dicts [] = []
step_dicts (s ∷ ss) = step_dict s ∷ step_dicts ss

unfoldable pub input_dicts : List MissionInputDefinition → List Json
input_dicts [] = []
input_dicts (i ∷ is) =
    dict (
      ("name", text i.name)
      ∷ ("required", boolean i.required)
      ∷ ("default", i.default)
      ∷ ("description", text i.description)
      ∷ [])
    ∷ input_dicts is

unfoldable pub mission_dict : MissionDefinition → Json
unfolding input_dicts step_dicts
mission_dict m = dict (
    ("id", text m.id)
    ∷ ("version", text m.version)
    ∷ ("goal", text m.goal)
    ∷ ("inputs", array_of (input_dicts m.inputs))
    ∷ ("steps", array_of (step_dicts m.steps))
    ∷ [])

unfoldable pub definition_hash : Env → MissionDefinition → String
unfolding mission_dict
definition_hash env m = sha256_json env (mission_dict m)

-- `missions` is a dict in the order of its entries.
pub record MissionPack : Type 0 where
  pub id : String
  pub version : String
  pub missions : List (String × MissionDefinition)
  pub pack_hash : String

pub record RuntimeContract : Type 0 where
  pub id : String
  pub version : String
  pub policy_profile : String
  pub workspace_root : String
  pub cluster : Option String
  pub wallet : Option String
  pub max_lamports : Option ℤ
  pub tool_versions : Json

abbrev is_profile : String → Bool
is_profile profile = profile == "read-only" || (profile == "local-safe" || profile == "devnet-safe")

abbrev is_negative : Option ℤ → Bool
is_negative none = false
is_negative (some n) = ltb_ℤ n (pos 0)

abbrev wallet_fits : Option String → Bool
wallet_fits none = true
wallet_fits (some wallet) = valid_public_key (some wallet)

-- What `__post_init__` raises.
unfoldable pub contract_fault : RuntimeContract → Option Error
contract_fault c =
    if is_profile c.policy_profile
    then (if is_negative c.max_lamports
        then some (value_error "max_lamports must not be negative")
        else if wallet_fits c.wallet
        then none
        else some (value_error "wallet must be a 32-byte base58 Solana public key"))
    else some (value_error ("unsupported policy profile: " ++ c.policy_profile))

unfoldable pub contract_dict : Env → RuntimeContract → Json
contract_dict env c = dict (
    ("id", text c.id)
    ∷ ("version", text c.version)
    ∷ ("policy_profile", text c.policy_profile)
    ∷ ("workspace_root", text (env.path_text (env.resolve c.workspace_root)))
    ∷ ("cluster", optional_text c.cluster)
    ∷ ("wallet", optional_text c.wallet)
    ∷ ("max_lamports", optional_number c.max_lamports)
    ∷ ("tool_versions", c.tool_versions)
    ∷ [])

unfoldable pub contract_hash : Env → RuntimeContract → String
unfolding contract_dict
contract_hash env c = sha256_json env (contract_dict env c)
