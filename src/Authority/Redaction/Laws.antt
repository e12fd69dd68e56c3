-- ===== src/Authority/Redaction/Laws.antt =====
-- Laws of the redaction and of the detector of the policy.
use solana_agent.Prelude.{◌≡◌, refl, Bool, false, ◌||◌, arith}
use solana_agent.Json.{
  Json, Items, Fields, null, boolean, number, text, array, object, nil, item, end, field,
}
use solana_agent.Env.{Env}
use solana_agent.Authority.Redaction.{
  visit, visit_items, visit_fields, redact_mapping, contains_redaction, any_item, any_value,
}

-- A secret stands under a sensitive key, or is a text that a pattern finds, anywhere in the value.
mutual
  pub has_secret : Env → Json → Bool
  has_secret env null = false
  has_secret env (boolean b) = false
  has_secret env (number n) = false
  has_secret env (text s) = env.secret_value s
  has_secret env (array xs) = items_secret env xs
  has_secret env (object fs) = fields_secret env fs

  pub items_secret : Env → Items → Bool
  items_secret env nil = false
  items_secret env (item x xs) = has_secret env x || items_secret env xs

  pub fields_secret : Env → Fields → Bool
  fields_secret env end = false
  fields_secret env (field k v fs) =
      (env.sensitive_key k || has_secret env v) || fields_secret env fs

mutual
  unfolding visit contains_redaction has_secret

  contains_visit :
      (env : Env) (v : Json)
      → contains_redaction (visit env v) ≡ has_secret env v || contains_redaction v
  contains_visit env null = refl
  contains_visit env (boolean b) = refl
  contains_visit env (number n) = refl
  contains_visit env (text s) = ground arith
  contains_visit env (array xs) = contains_items env xs
  contains_visit env (object fs) = contains_fields env fs

  contains_items :
      (env : Env) (xs : Items) → any_item (visit_items env xs) ≡ items_secret env xs || any_item xs
  contains_items env nil = refl
  contains_items env (item x xs) = ground (arith, contains_visit env x, contains_items env xs)

  contains_fields :
      (env : Env) (fs : Fields)
      → any_value (visit_fields env fs) ≡ fields_secret env fs || any_value fs
  contains_fields env end = refl
  contains_fields env (field k v fs) = ground (arith, contains_visit env v, contains_fields env fs)

-- The detector finds a redacted mapping exactly when the mapping held a secret, or the mark itself.
pub contains-redact_mapping :
    (env : Env) (v : Json)
    → contains_redaction (redact_mapping env v) ≡ has_secret env v || contains_redaction v
unfolding redact_mapping
contains-redact_mapping env v = contains_visit env v
