-- ===== src/Authority/Redaction.antt =====
-- solana_agent/authority/redaction.py. `detected_paths` is not modelled: no caller reads it.
pub mod Laws
use solana_agent.Prelude.{String, ◌==◌, Bool, true, false, ◌||◌, if◌then◌else◌}
use solana_agent.Json.{
  Json, Items, Fields, null, boolean, number, text, array, object, nil, item, end, field,
}
use solana_agent.Env.{Env}

abbrev pub redacted : String
redacted = "[REDACTED]"

unfoldable mutual
  -- `visit`
  pub visit : Env → Json → Json
  visit env null = null
  visit env (boolean b) = boolean b
  visit env (number n) = number n
  visit env (text s) = if env.secret_value s then text redacted else text s
  visit env (array xs) = array (visit_items env xs)
  visit env (object fs) = object (visit_fields env fs)

  pub visit_items : Env → Items → Items
  visit_items env nil = nil
  visit_items env (item x xs) = item (visit env x) (visit_items env xs)

  pub visit_fields : Env → Fields → Fields
  visit_fields env end = end
  visit_fields env (field k v fs) =
      field k (if env.sensitive_key k then text redacted else visit env v) (visit_fields env fs)

unfoldable pub redact_mapping : Env → Json → Json
redact_mapping env value = visit env value

unfoldable pub redact_text : Env → String → String
redact_text env value = env.text_secret_sub value

-- `PolicyEngine._contains_redaction` (solana_agent/authority/policy.py)
unfoldable mutual
  pub contains_redaction : Json → Bool
  contains_redaction null = false
  contains_redaction (boolean b) = false
  contains_redaction (number n) = false
  contains_redaction (text s) = s == redacted
  contains_redaction (array xs) = any_item xs
  contains_redaction (object fs) = any_value fs

  pub any_item : Items → Bool
  any_item nil = false
  any_item (item x xs) = contains_redaction x || any_item xs

  pub any_value : Fields → Bool
  any_value end = false
  any_value (field k v fs) = contains_redaction v || any_value fs
