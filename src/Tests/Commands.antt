-- ===== src/Tests/Commands.antt =====
-- The theorems on commands at the journal of the fixtures.
use solana_agent.Prelude.{String, ◌≡◌, refl, ◌≤◌, ◌⊎◌, true, false, none, some, ◌∷◌, []}
use solana_agent.Contracts.Command.{
  approval_required, CommandRecord, planned, validating, authorized, running, succeeded,
  may_transition, status_eq, command_status_transitions,
}
use solana_agent.Contracts.Command.Paths.{
  PathTo, stay, move, Meets, moves_bounded, started_was_authorized,
}
use solana_agent.Storage.Events.{append_event, max_sequence, event_fits}
use solana_agent.Exec.{◌>>=◌, transaction, ok, err, invalid_command_transition}
use solana_agent.Execution.Executor.{ExecutionRequest}
use solana_agent.Storage.Commands.{
  find_command, update_rows, require_command, get_command, write_transition, moved_row, no_patch,
  transition_command,
}
use solana_agent.Storage.Commands.Replay.{replay, told_status}
use solana_agent.Storage.Commands.Changes.{
  IsPatched, transition_command-ok, transition_command-atomic,
}
use solana_agent.Contracts.Moves.{IsMoved}
use solana_agent.Storage.Events.Numbered.{event_count}
use solana_agent.Storage.Journaled.{IsJournaled}
use solana_agent.Execution.Governed.{execute}
use solana_agent.Execution.Governed.Approved.{execute_approved, recover_orphaned_commands}
use solana_agent.Execution.Governed.Calls.Once.{IsCleared}
use solana_agent.Execution.Governed.Calls.Approved.{Ran, execute_approved-calls}
use solana_agent.Execution.Governed.Sound.{
  execute-calls, execute-IsJournaled, execute_approved-IsJournaled, recover-IsJournaled,
}
use solana_agent.Tests.Fixtures.{machine, command, tables, store, context, spec, executor, journal}

run_path : PathTo planned running 3
unfolding may_transition status_eq command_status_transitions
run_path = move {t = authorized} (move {t = validating} (move {t = planned} stay refl) refl) refl

moves_bounded_example : 3 ≤ 5
moves_bounded_example = moves_bounded run_path

started_was_authorized_example : Meets authorized run_path
started_was_authorized_example = started_was_authorized run_path refl

tables-IsJournaled : IsJournaled tables
unfolding replay told_status event_count
tables-IsJournaled = record { numbered = (refl, tt); replayed = (refl, tt) }

execute-calls_example :
    let after = (execute machine journal spec executor none none (some context) store).1 in
    (after.calls ≡ [])
    ⊎ ((r : ExecutionRequest) × IsCleared machine journal none none (some context) r
        × (after.calls ≡ r ∷ []))
execute-calls_example = execute-calls machine journal spec executor none none (some context) store

execute-IsJournaled_example :
    IsJournaled (execute machine journal spec executor none none (some context) store).1.tables
execute-IsJournaled_example =
    execute-IsJournaled machine journal spec executor none none (some context) store
      tables-IsJournaled

execute_approved-IsJournaled_example :
    IsJournaled (execute_approved machine journal "c" executor store).1.tables
execute_approved-IsJournaled_example =
    execute_approved-IsJournaled machine journal "c" executor store tables-IsJournaled

recover-IsJournaled_example :
    IsJournaled (recover_orphaned_commands journal "restart" store).1.tables
recover-IsJournaled_example = recover-IsJournaled journal "restart" store tables-IsJournaled

found : find_command "c" store.tables.commands ≡ some command
unfolding find_command
found = refl

illegal : may_transition planned succeeded ≡ false
unfolding may_transition status_eq command_status_transitions
illegal = refl

refuses :
    (transition_command "c" succeeded no_patch store).0
    ≡ err (invalid_command_transition planned succeeded)
unfolding transition_command write_transition find_command may_transition status_eq
    command_status_transitions transaction ◌>>=◌
refuses = refl

transition_command-atomic_example :
    (transition_command "c" succeeded no_patch store).1.tables ≡ tables
transition_command-atomic_example = transition_command-atomic "c" succeeded no_patch store refuses

abbrev validated : CommandRecord
validated = moved_row validating no_patch 0 command

legal : (transition_command "c" validating no_patch store).0 ≡ ok validated
unfolding transition_command write_transition require_command get_command append_event max_sequence
    event_fits find_command update_rows may_transition status_eq command_status_transitions
    transaction ◌>>=◌ moved_row
legal = refl

transition_command-ok_example :
    (row : CommandRecord) × (find_command "c" tables.commands ≡ some row)
    × (may_transition row.status validating ≡ true)
    × IsMoved validating 0 row validated
    × IsPatched no_patch row validated
    × (find_command "c" (transition_command "c" validating no_patch store).1.tables.commands
        ≡ some validated)
transition_command-ok_example = transition_command-ok "c" validating no_patch store legal

execute_approved-calls_example :
    let after = (execute_approved machine journal "c" executor store).1 in
    (after.calls ≡ [])
    ⊎ ((row : CommandRecord) × (id : String) × (row.id ≡ "c")
        × (find_command "c" tables.commands ≡ some row)
        × (row.status ≡ approval_required)
        × (row.approval_id ≡ some id)
        × Ran machine row id store after)
execute_approved-calls_example = execute_approved-calls machine journal "c" executor store
