-- ===== src/Storage/Runs.antt =====
-- The `runs` table and its repository methods (solana_agent/storage/repositories.py).
use Prim.Native.String.{◌++◌}
use solana_agent.Prelude.{ℕ, String, not, Option, none, some, List, [], ◌∷◌, ◌==◌, if◌then◌else◌}
use solana_agent.Json.{Json, text, dict, get_key, truthy, optional_text}
use solana_agent.Contracts.Lifecycle.{RunStatus, RunRecord, created, run_value}
use solana_agent.Exec.{
  Action, key_error, integrity_error, gets, or_raise, require, modify, transaction, utc_now, ◌>>=◌,
  ◌>>◌,
}
use solana_agent.Storage.Events.{run_exists, append_event}

pub find_run : String → List RunRecord → Option RunRecord
find_run id [] = none
find_run id (r ∷ rs) = if r.id == id then some r else find_run id rs

unfoldable pub require_run : String → Action RunRecord
require_run id = do
  found ← gets (λ t. find_run id t.runs)
  or_raise found (key_error ("run not found: " ++ id))

-- `snapshot["hash"] if snapshot else None`; the hash is a text
abbrev text_of : Option Json → Option String
text_of (some (text s)) = some s
text_of _ = none

-- An empty dict counts as absent.
abbrev present : Option Json → Option Json
present none = none
present (some v) = if truthy v then some v else none

abbrev hash_of : Option Json → Option String
hash_of none = none
hash_of (some snapshot) = text_of (get_key "hash" snapshot)

abbrev snapshot_hash : Option Json → Option String
snapshot_hash snapshot = hash_of (present snapshot)

abbrev new_run : String → String → Json → Option Json → ℕ → RunRecord
new_run id mission_id metadata snapshot now = record {
  id = id;
  mission_id = mission_id;
  status = created;
  metadata = metadata;
  policy_snapshot = present snapshot;
  policy_snapshot_hash = snapshot_hash snapshot;
  error = none;
  created_at = now;
  updated_at = now;
}

write_run : RunRecord → ℕ → Action (Unit {0})
write_run run now = do
  clash ← gets (λ t. run_exists run.id t.runs)
  require (not clash) (integrity_error "runs")
  modify (λ t. record t { runs = run ∷ t.runs })
  append_event run.id none "run.created"
      (dict (
        ("mission_id", text run.mission_id)
        ∷ ("policy_snapshot_hash", optional_text run.policy_snapshot_hash)
        ∷ []))
      now

unfoldable pub create_run : String → String → Json → Option Json → Action RunRecord
unfolding write_run
create_run id mission_id metadata snapshot = do
  now ← utc_now
  transaction (write_run (new_run id mission_id metadata snapshot now) now)
  require_run id

update_run : String → RunStatus → Option Json → ℕ → List RunRecord → List RunRecord
update_run id status error now [] = []
update_run id status error now (r ∷ rs) =
    (if r.id == id then record r { status = status; error = error; updated_at = now } else r)
    ∷ update_run id status error now rs

abbrev error_payload : Option Json → Json
error_payload none = dict []
error_payload (some e) = dict (("error", e) ∷ [])

unfoldable pub run_event : RunStatus → String
unfolding run_value
run_event status = "run." ++ run_value status

write_run_status : String → RunStatus → Option Json → ℕ → Action (Unit {0})
unfolding update_run
write_run_status id status error now = do
  known ← gets (λ t. run_exists id t.runs)
  modify (λ t. record t { runs = update_run id status (present error) now t.runs })
  require known (key_error ("run not found: " ++ id))
  append_event id none (run_event status) (error_payload (present error)) now

unfoldable pub set_run_status : String → RunStatus → Option Json → Action RunRecord
unfolding write_run_status
set_run_status id status error = do
  now ← utc_now
  transaction (write_run_status id status error now)
  require_run id
