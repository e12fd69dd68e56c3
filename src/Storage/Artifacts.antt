-- ===== src/Storage/Artifacts.antt =====
-- The `artifacts` table and its repository methods (solana_agent/storage/repositories.py).
use Prim.Native.String.{◌++◌, len}
use solana_agent.Prelude.{
  ℕ, String, Bool, true, not, ◌&&◌, Option, none, some, List, [], ◌∷◌, ◌==◌, any, if◌then◌else◌,
}
use solana_agent.Json.{text, dict}
use solana_agent.Exec.{
  Action, key_error, integrity_error, gets, or_raise, require, modify, transaction, utc_now,
  fresh_id, ◌>>=◌, ◌>>◌,
}
use solana_agent.Storage.Tables.{ArtifactRecord, Tables}
use solana_agent.Storage.Events.{run_exists, command_exists, append_event}

pub find_artifact : String → List ArtifactRecord → Option ArtifactRecord
find_artifact id [] = none
find_artifact id (a ∷ as') = if a.id == id then some a else find_artifact id as'

unfoldable pub require_artifact : String → Action ArtifactRecord
require_artifact id = do
  found ← gets (λ t. find_artifact id t.artifacts)
  or_raise found (key_error ("artifact not found: " ++ id))

abbrev owner_known : Option String → Tables → Bool
owner_known none t = true
owner_known (some id) t = command_exists id t.commands

artifact_fits : ArtifactRecord → Tables → Bool
artifact_fits a t =
    not (any (λ o. o.id == a.id) t.artifacts)
    && (run_exists a.run_id t.runs && owner_known a.command_id t)

write_artifact : ArtifactRecord → ℕ → Action (Unit {0})
unfolding artifact_fits
write_artifact a now = do
  fits ← gets (artifact_fits a)
  require fits (integrity_error "artifacts")
  modify (λ t. record t { artifacts = a ∷ t.artifacts })
  append_event a.run_id a.command_id "artifact.created"
      (dict (
        ("artifact_id", text a.id)
        ∷ ("kind", text a.kind)
        ∷ ("content_hash", text a.content_hash)
        ∷ []))
      now

-- `sha256_hex` is `hashlib.sha256(encoded).hexdigest()`; `len` counts the bytes of the UTF-8.
unfoldable pub create_artifact :
    (String → String) → String → Option String → String → String → Action ArtifactRecord
unfolding write_artifact
create_artifact sha256_hex run_id command_id kind content = do
  id ← fresh_id "artifact-"
  now ← utc_now
  transaction (
      write_artifact
        (record {
          id = id;
          run_id = run_id;
          command_id = command_id;
          kind = kind;
          content = content;
          content_hash = sha256_hex content;
          size_bytes = len content;
          created_at = now;
        })
        now)
  require_artifact id
