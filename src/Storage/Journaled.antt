-- ===== src/Storage/Journaled.antt =====
-- The invariant of the journal: numbered events, and statuses that the events tell.
pub mod Operations
use solana_agent.Prelude.{
  ℕ, String, ◌≡◌, refl, sym, subst, inl, inr, true, Option, none, some, arith, Option-cases,
  Bool-cases,
}
use solana_agent.Json.{Json}
use solana_agent.Contracts.Command.{CommandStatus, CommandRecord, planned, may_transition}
use solana_agent.Exec.{ok, Store, transaction, ◌>>=◌}
use solana_agent.Exec.Preserves.{Preserves, Preserves-transaction, preserving}
use solana_agent.Storage.Tables.{Tables}
use solana_agent.Storage.Events.{add_event, append_event}
use solana_agent.Storage.Events.Numbered.{
  IsNumbered, written, append_event-ok, append_event-tables, IsNumbered-written,
}
use solana_agent.Storage.Commands.{
  find_command, PlannedCommand, planned_row, add_command, command_fits, write_planned,
  planned_payload, insert_planned_command, require_command, Patch, moved_row, update_rows,
  command_event, transition_payload, write_transition, transition_command,
}
use solana_agent.Storage.Commands.Replay.{
  IsReplayed, told_status, told_status-command_event, find_command-id, find_command-All,
  replay_told, update_rows-IsReplayed, IsReplayed-skip, IsReplayed-new,
}

pub record IsJournaled (t : Tables) : Type 0 where
  pub numbered : IsNumbered t.events
  pub replayed : IsReplayed t.commands t.events

-- An event of another kind keeps the invariant.
pub append_event-IsJournaled :
    (run_id : String) (command_id : Option String) (event_type : String) (payload : Json) (at : ℕ)
    → told_status event_type ≡ none
    → Preserves IsJournaled (append_event run_id command_id event_type payload at)
append_event-IsJournaled run_id command_id event_type payload at other = record { at = keep }
  where
    keep :
        (s : Store)
        → IsJournaled s.tables
        → IsJournaled (append_event run_id command_id event_type payload at s).1.tables
    keep s h = elim (append_event-tables run_id command_id event_type payload at s) [
      | inl same ↦ subst IsJournaled (sym same) h
      | inr more ↦ subst IsJournaled (sym more) (record {
        numbered = IsNumbered-written run_id command_id event_type payload at s h.numbered;
        replayed = IsReplayed-skip s.tables.commands _ s.tables.events other h.replayed;
      })
    ]

moved_tables : String → CommandStatus → CommandRecord → Patch → ℕ → Tables → Tables
moved_tables id target row p now t = record t {
  commands = update_rows id row.status (moved_row target p now) t.commands;
}

-- What a successful transition has done to the tables.
write_transition-ok :
    (id : String) (target : CommandStatus) (p : Patch) (now : ℕ) (s : Store)
    → (write_transition id target p now s).0 ≡ ok tt
    → (row : CommandRecord) × (find_command id s.tables.commands ≡ some row)
      × (may_transition row.status target ≡ true)
      × ((write_transition id target p now s).1.tables
          ≡ add_event
              (written row.run_id
                (some id)
                (command_event target)
                (transition_payload p)
                now
                (record s { tables = moved_tables id target row p now s.tables }))
              (moved_tables id target row p now s.tables))
unfolding write_transition ◌>>=◌ moved_tables
write_transition-ok id target p now s h = elim (Option-cases (find_command id s.tables.commands)) [
  | inl missing ↦ ground arith
  | inr (row, found) ↦ elim (Bool-cases (may_transition row.status target)) [
    | inl legal ↦ (
      row,
      found,
      legal,
      ground (
        arith,
        append_event-ok row.run_id (some id) (command_event target) (transition_payload p) now
            (record s { tables = moved_tables id target row p now s.tables }),
      ),
    )
    | inr illegal ↦ ground arith
  ]
]

write_transition-IsJournaled :
    (id : String) (target : CommandStatus) (p : Patch) (now : ℕ)
    → Preserves IsJournaled (transaction (write_transition id target p now))
write_transition-IsJournaled id target p now = Preserves-transaction _ keep
  where
    keep :
        (s : Store) (a : Unit {0})
        → IsJournaled s.tables
        → (write_transition id target p now s).0 ≡ ok a
        → IsJournaled (write_transition id target p now s).1.tables
    keep s a h e =
        let (row, found, legal, wrote) = write_transition-ok id target p now s e in
        subst IsJournaled (sym wrote) (record {
          numbered =
              IsNumbered-written row.run_id (some id) (command_event target) (transition_payload p)
                now (record s { tables = moved_tables id target row p now s.tables })
                (unfold moved_tables in h.numbered);
          replayed =
              unfold moved_tables in
              update_rows-IsReplayed id target row.status p now _ s.tables.events refl
                (told_status-command_event target)
                (rw (← find_command-id id s.tables.commands found)
                  (find_command-All _ id s.tables.commands found h.replayed))
                s.tables.commands h.replayed;
        })

-- Every transition of a command, legal or refused, keeps the invariant.
pub transition_command-IsJournaled :
    (id : String) (target : CommandStatus) (p : Patch)
    → Preserves IsJournaled (transition_command id target p)
unfolding transition_command require_command
transition_command-IsJournaled id target p = search (preserving, write_transition-IsJournaled)

-- So does planning one.
write_planned-ok :
    (id : String) (p : PlannedCommand) (now : ℕ) (s : Store)
    → (write_planned id p now s).0 ≡ ok tt
    → (command_fits (planned_row id p now) s.tables ≡ true)
      × ((write_planned id p now s).1.tables
          ≡ add_event
              (written p.run_id
                (some id)
                "command.planned"
                (planned_payload p)
                now
                (record s { tables = add_command (planned_row id p now) s.tables }))
              (add_command (planned_row id p now) s.tables))
unfolding write_planned ◌>>=◌
write_planned-ok id p now s h = elim (Bool-cases (command_fits (planned_row id p now) s.tables)) [
  | inl fits ↦ (
    fits,
    ground (
      arith,
      append_event-ok p.run_id (some id) "command.planned" (planned_payload p) now
          (record s { tables = add_command (planned_row id p now) s.tables }),
    ),
  )
  | inr clash ↦ ground arith
]

write_planned-IsJournaled :
    (id : String) (p : PlannedCommand) (now : ℕ)
    → Preserves IsJournaled (transaction (write_planned id p now))
write_planned-IsJournaled id p now = Preserves-transaction _ keep
  where
    keep :
        (s : Store) (a : Unit {0})
        → IsJournaled s.tables
        → (write_planned id p now s).0 ≡ ok a
        → IsJournaled (write_planned id p now s).1.tables
    keep s a h e =
        let (fits, wrote) = write_planned-ok id p now s e in
        subst IsJournaled (sym wrote) (record {
          numbered =
              IsNumbered-written p.run_id (some id) "command.planned" (planned_payload p) now
                (record s { tables = add_command (planned_row id p now) s.tables }) h.numbered;
          replayed = (
            replay_told id _ s.tables.events planned refl (unfold told_status in refl),
            IsReplayed-new id s.tables.commands _ s.tables.events refl
                (unfold command_fits in ground arith) h.replayed,
          );
        })

pub insert_planned_command-IsJournaled :
    (id : String) (p : PlannedCommand) → Preserves IsJournaled (insert_planned_command id p)
unfolding insert_planned_command require_command
insert_planned_command-IsJournaled id p = search (preserving, write_planned-IsJournaled)
