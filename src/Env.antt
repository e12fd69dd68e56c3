-- ===== src/Env.antt =====
-- What the program takes from Python's library, its regular expressions and the machine.
use solana_agent.Prelude.{String, Bool, List}
use solana_agent.Json.{Json}
use solana_agent.Exec.{Error}

-- A resolved, absolute path: its components from the root.
abbrev pub FilePath : Type 0
FilePath = List String

pub record Env : Type 0 where
  -- `hashlib.sha256(text.encode("utf-8")).hexdigest()`
  pub sha256_hex : String → String
  -- `json.dumps(value, ensure_ascii=False, separators=(",", ":"), sort_keys=True, default=str)`
  pub canonical_json : Json → String
  -- `str(exc)`
  pub error_text : Error → String
  -- `TEXT_SECRET.sub(…)`, `SENSITIVE_KEY.search`, and a search for one of `SECRET_VALUE_PATTERNS`
  pub text_secret_sub : String → String
  pub sensitive_key : String → Bool
  pub secret_value : String → Bool
  -- `Path(text).resolve()`, `(root / Path(text)).resolve()`, `path.exists()` and `str(path)`
  pub resolve : String → FilePath
  pub resolve_under : FilePath → String → FilePath
  pub exists : FilePath → Bool
  pub path_text : FilePath → String

-- `sha256_json` of policy.py, and `hash_payload` of mission.py
unfoldable pub sha256_json : Env → Json → String
sha256_json env value = env.sha256_hex (env.canonical_json value)
