-- ===== src/Storage/Events/Numbered.antt =====
-- The numbers of the events of a run.
use Prim.Native.String.{◌++◌}
use solana_agent.Prelude.{
  ℕ, suc, ◌+◌, ◌≡◌, refl, ◌⊎◌, String, Option, List, [], ◌∷◌, ◌==◌, eq_iff, arith, if◌then◌else◌,
}
use solana_agent.Json.{Json}
use solana_agent.Exec.{ok, Store, ◌>>=◌}
use solana_agent.Storage.Tables.{EventRecord}
use solana_agent.Storage.Events.{max_sequence, new_event, add_event, append_event}

-- How many events a run has.
unfoldable pub event_count : String → List EventRecord → ℕ
event_count run_id [] = 0
event_count run_id (e ∷ es) =
    let rest = event_count run_id es in if e.run_id == run_id then suc rest else rest

-- Newest first: each event's number is one more than the count of its run's events before it.
abbrev pub IsNumbered : List EventRecord → Type 0
IsNumbered [] = Unit
IsNumbered (e ∷ es) = (e.sequence ≡ suc (event_count e.run_id es)) × IsNumbered es

pub max_sequence-eq-event_count :
    (run_id : String) (es : List EventRecord)
    → IsNumbered es
    → max_sequence run_id es ≡ event_count run_id es
unfolding max_sequence event_count
max_sequence-eq-event_count run_id [] h = refl
max_sequence-eq-event_count run_id (e ∷ es) h =
    ground (arith, eq_iff e.run_id run_id, max_sequence-eq-event_count run_id es h.1)

-- The event that an append writes, if the constraints admit it.
abbrev pub written : String → Option String → String → Json → ℕ → Store → EventRecord
written run_id command_id event_type payload at s =
    new_event run_id command_id event_type payload at (max_sequence run_id s.tables.events + 1)
      ("event-" ++ s.uuids 0)

pub append_event-ok :
    (run_id : String) (command_id : Option String) (event_type : String) (payload : Json) (at : ℕ)
    (s : Store)
    → (append_event run_id command_id event_type payload at s).0 ≡ ok tt
    → (append_event run_id command_id event_type payload at s).1.tables
      ≡ add_event (written run_id command_id event_type payload at s) s.tables
unfolding append_event ◌>>=◌
append_event-ok run_id command_id event_type payload at s h = ground arith

-- An append writes that one row, or nothing.
pub append_event-tables :
    (run_id : String) (command_id : Option String) (event_type : String) (payload : Json) (at : ℕ)
    (s : Store)
    → let after = (append_event run_id command_id event_type payload at s).1.tables in
      (after ≡ s.tables)
      ⊎ (after ≡ add_event (written run_id command_id event_type payload at s) s.tables)
unfolding append_event ◌>>=◌
append_event-tables run_id command_id event_type payload at s = ground arith

pub IsNumbered-written :
    (run_id : String) (command_id : Option String) (event_type : String) (payload : Json) (at : ℕ)
    (s : Store)
    → IsNumbered s.tables.events
    → IsNumbered (written run_id command_id event_type payload at s ∷ s.tables.events)
IsNumbered-written run_id command_id event_type payload at s h =
    (omega (arith, max_sequence-eq-event_count run_id s.tables.events h), h)
