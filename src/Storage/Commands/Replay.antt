-- ===== src/Storage/Commands/Replay.antt =====
-- The status of a command as its events tell it.
use solana_agent.Prelude.{
  ℕ, String, ◌≡◌, ◌∙◌, refl, subst, inl, inr, Bool, ◌&&◌, false, Option, none, some, List, [], ◌∷◌,
  ◌==◌, eq_iff, eq_refl, arith, All, if◌then◌else◌, Bool-cases,
}
use solana_agent.Contracts.Command.{
  CommandStatus, CommandRecord, planned, validating, approval_required, authorized, running,
  succeeded, failed, rejected, cancelled, interrupted, timed_out, status_eq,
}
use solana_agent.Contracts.Command.Paths.{status_eq_refl}
use solana_agent.Storage.Tables.{EventRecord}
use solana_agent.Storage.Events.{command_exists}
use solana_agent.Storage.Commands.{find_command, moved_row, update_rows, command_event, Patch}

-- The status that an event of a command gives it, read from the type of the event.
unfoldable pub told_status : String → Option CommandStatus
told_status t =
    if t == "command.planned"
    then some planned
    else if t == "command.validating"
    then some validating
    else if t == "command.approval_required"
    then some approval_required
    else if t == "command.authorized"
    then some authorized
    else if t == "command.running"
    then some running
    else if t == "command.succeeded"
    then some succeeded
    else if t == "command.failed"
    then some failed
    else if t == "command.rejected"
    then some rejected
    else if t == "command.cancelled"
    then some cancelled
    else if t == "command.interrupted"
    then some interrupted
    else if t == "command.timed_out"
    then some timed_out
    else none

abbrev names : String → EventRecord → Bool
names id e = elim e.command_id [ none ↦ false | some c ↦ c == id ]

abbrev or_else {ℓ} : {A : Type ℓ} → Option A → Option A → Option A
or_else none b = b
or_else (some a) b = some a

-- The status of a command after its events, newest first.
unfoldable pub replay : String → List EventRecord → Option CommandStatus
replay id [] = none
replay id (e ∷ es) =
    let rest = replay id es in if names id e then or_else (told_status e.event_type) rest else rest

abbrev pub IsReplayed : List CommandRecord → List EventRecord → Type 0
IsReplayed cs es = All (λ c. replay c.id es ≡ some c.status) cs

pub told_status-command_event : (s : CommandStatus) → told_status (command_event s) ≡ some s
unfolding told_status command_event
told_status-command_event planned = refl
told_status-command_event _ = refl

pub replay_skip :
    (id : String) (e : EventRecord) (es : List EventRecord)
    → told_status e.event_type ≡ none
    → replay id (e ∷ es) ≡ replay id es
unfolding replay
replay_skip id e es h = elim (Bool-cases (names id e)) [
  | inl yours ↦ rw yours (rw h)
  | inr other ↦ rw other
]

pub replay_told :
    (id : String) (e : EventRecord) (es : List EventRecord) (s : CommandStatus)
    → e.command_id ≡ some id
    → told_status e.event_type ≡ some s
    → replay id (e ∷ es) ≡ some s
unfolding replay
replay_told id e es s h t = rw h (rw (eq_refl id) (rw t))

pub replay_other :
    (id j : String) (e : EventRecord) (es : List EventRecord)
    → e.command_id ≡ some j
    → (j == id) ≡ false
    → replay id (e ∷ es) ≡ replay id es
unfolding replay
replay_other id j e es h ne = rw h (rw ne)

-- The row that a search by identifier finds has that identifier, and what holds of each row.
pub find_command-id :
    (id : String) (cs : List CommandRecord) {row : CommandRecord}
    → find_command id cs ≡ some row
    → row.id ≡ id
unfolding find_command
find_command-id id [] h = cc
find_command-id id (c ∷ cs) {row} h =
    ground (arith, eq_iff c.id id, find_command-id id cs {row = row})

pub find_command-All :
    (P : CommandRecord → Type 0) (id : String) (cs : List CommandRecord) {row : CommandRecord}
    → find_command id cs ≡ some row
    → All P cs
    → P row
unfolding find_command
find_command-All P id [] h all = absurd (cc)
find_command-All P id (c ∷ cs) {row} h all = elim (Bool-cases (c.id == id)) [
  | inl same ↦ subst P (ground arith) all.0
  | inr other ↦ find_command-All P id cs (rw other at h) all.1
]

module _ (id : String) (target current : CommandStatus) (p : Patch) (now : ℕ) (e : EventRecord)
    (es : List EventRecord) (named : e.command_id ≡ some id)
    (told : told_status e.event_type ≡ some target) (before : replay id es ≡ some current) where
  abbrev after_update : CommandRecord → CommandRecord
  after_update c = if c.id == id && status_eq c.status current then moved_row target p now c else c

  after_update-replayed :
      (c : CommandRecord)
      → replay c.id es ≡ some c.status
      → replay (after_update c).id (e ∷ es) ≡ some (after_update c).status
  unfolding moved_row
  after_update-replayed c h = elim (Bool-cases (c.id == id)) [
    | inl same ↦
        ground
          (arith, eq_iff c.id id, status_eq_refl c.status, replay_told id e es target named told)
    | inr other ↦
        ground
          (arith, replay_other c.id id e es named (ground (arith, eq_iff c.id id, eq_iff id c.id)))
  ]

  pub update_rows-IsReplayed :
      (cs : List CommandRecord)
      → IsReplayed cs es
      → IsReplayed (update_rows id current (moved_row target p now) cs) (e ∷ es)
  unfolding update_rows
  update_rows-IsReplayed [] h = tt
  update_rows-IsReplayed (c ∷ cs) h = (after_update-replayed c h.0, update_rows-IsReplayed cs h.1)

-- An event that tells no command's status changes no replay.
pub IsReplayed-skip :
    (cs : List CommandRecord) (e : EventRecord) (es : List EventRecord)
    → told_status e.event_type ≡ none
    → IsReplayed cs es
    → IsReplayed cs (e ∷ es)
IsReplayed-skip [] e es h r = tt
IsReplayed-skip (c ∷ cs) e es h r = (replay_skip c.id e es h ∙ r.0, IsReplayed-skip cs e es h r.1)

-- Nor does one of a command that is not in the table.
pub IsReplayed-new :
    (id : String) (cs : List CommandRecord) (e : EventRecord) (es : List EventRecord)
    → e.command_id ≡ some id
    → command_exists id cs ≡ false
    → IsReplayed cs es
    → IsReplayed cs (e ∷ es)
IsReplayed-new id [] e es named new r = tt
IsReplayed-new id (c ∷ cs) e es named new r = (
  replay_other c.id id e es named (ground (arith, eq_iff c.id id, eq_iff id c.id)) ∙ r.0,
  IsReplayed-new id cs e es named (ground arith) r.1,
)
