-- ===== src/Authority/Policy/Snapshot.antt =====
-- `PolicyEngine.snapshot` (solana_agent/authority/policy.py).
use solana_agent.Prelude.{List, [], ◌∷◌, String}
use solana_agent.Prelude.Int.{pos}
use solana_agent.Json.{Json, text, number, dict, array_of, texts}
use solana_agent.Contracts.Authority.{effect_value, risk_value}
use solana_agent.Env.{Env, sha256_json}
use solana_agent.Authority.Rules.{PolicyProfile, PolicyRule, profile_value}
use solana_agent.Authority.Inputs.{PolicyEngine}

abbrev profile_texts : List PolicyProfile → List Json
profile_texts [] = []
profile_texts (p ∷ ps) = text (profile_value p) ∷ profile_texts ps

unfoldable pub rule_dict : PolicyRule → Json
rule_dict rule = dict (
    ("id", text rule.id)
    ∷ ("profiles", array_of (profile_texts rule.profiles))
    ∷ ("adapter", text rule.adapter)
    ∷ ("operation", text rule.operation)
    ∷ ("effect", text (effect_value rule.effect))
    ∷ ("risk", text (risk_value rule.risk))
    ∷ ("reason", text rule.reason)
    ∷ ("required_evidence", array_of (texts rule.required_evidence))
    ∷ [])

unfoldable pub rule_dicts : List PolicyRule → List Json
unfolding rule_dict
rule_dicts [] = []
rule_dicts (rule ∷ rules) = rule_dict rule ∷ rule_dicts rules

abbrev snapshot_entries : PolicyEngine → List (String × Json) → List (String × Json)
snapshot_entries engine rest =
    ("version", text engine.version)
    ∷ ("profile", text (profile_value engine.profile))
    ∷ ("max_lamports", number (pos engine.max_lamports))
    ∷ ("rules", array_of (rule_dicts engine.rules))
    ∷ rest

unfoldable pub snapshot : Env → PolicyEngine → Json
unfolding rule_dicts
snapshot env engine = dict (
    snapshot_entries engine
      (("hash", text (sha256_json env (dict (snapshot_entries engine [])))) ∷ []))
