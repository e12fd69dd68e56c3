-- ===== src/Storage/Events.antt =====
-- `JournalRepository._append_event` and the constraints of the `events` table.
pub mod Numbered
use Prim.Native.Nat.{max}
use Prim.Native.String.{◌++◌}
use solana_agent.Prelude.{
  ℕ, ◌+◌, String, Bool, true, not, ◌&&◌, Option, none, some, List, [], ◌∷◌, ◌==◌, nat_eq, any,
  if◌then◌else◌,
}
use solana_agent.Json.{Json}
use solana_agent.Contracts.Command.{CommandRecord}
use solana_agent.Contracts.Lifecycle.{RunRecord}
use solana_agent.Exec.{Action, integrity_error, gets, require, modify, fresh_id, ◌>>=◌, ◌>>◌}
use solana_agent.Storage.Tables.{EventRecord, Tables}

-- `SELECT COALESCE(MAX(sequence), 0) FROM events WHERE run_id = ?`
unfoldable pub max_sequence : String → List EventRecord → ℕ
max_sequence run_id [] = 0
max_sequence run_id (e ∷ es) =
    let rest = max_sequence run_id es in if e.run_id == run_id then max e.sequence rest else rest

abbrev pub run_exists : String → List RunRecord → Bool
run_exists id = any (λ r. r.id == id)

abbrev pub command_exists : String → List CommandRecord → Bool
command_exists id = any (λ c. c.id == id)

-- A foreign key that may be NULL.
abbrev command_known : Option String → List CommandRecord → Bool
command_known none cs = true
command_known (some id) cs = command_exists id cs

-- PRIMARY KEY(id), the foreign keys, and UNIQUE(run_id, sequence).
unfoldable pub event_fits : EventRecord → Tables → Bool
event_fits e t =
    not (any (λ o. o.id == e.id) t.events)
    && (run_exists e.run_id t.runs
        && (command_known e.command_id t.commands
            && not (any (λ o. o.run_id == e.run_id && nat_eq o.sequence e.sequence) t.events)))

abbrev pub add_event : EventRecord → Tables → Tables
add_event e t = record t { events = e ∷ t.events }

-- The row that an append writes.
abbrev pub new_event : String → Option String → String → Json → ℕ → ℕ → String → EventRecord
new_event run_id command_id event_type payload created_at sequence id = record {
  id = id;
  run_id = run_id;
  command_id = command_id;
  sequence = sequence;
  event_type = event_type;
  payload = payload;
  created_at = created_at;
}

unfoldable pub append_event : String → Option String → String → Json → ℕ → Action (Unit {0})
append_event run_id command_id event_type payload created_at = do
  sequence ← gets (λ t. max_sequence run_id t.events + 1)
  id ← fresh_id "event-"
  fits ← gets (event_fits (new_event run_id command_id event_type payload created_at sequence id))
  require fits (integrity_error "events")
  modify (add_event (new_event run_id command_id event_type payload created_at sequence id))
