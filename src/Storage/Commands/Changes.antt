-- ===== src/Storage/Commands/Changes.antt =====
-- What a transition of a command does: the row it leaves, and what it does where it is refused.
use solana_agent.Prelude.{
  ℕ, suc, String, ◌≡◌, ◌∙◌, refl, sym, ap, subst, inl, inr, true, Option, none, some, List, [], ◌∷◌,
  eq_iff, arith, Option-cases, Bool-cases,
}
use solana_agent.Json.{Json}
use solana_agent.Contracts.Command.{
  CommandStatus, CommandRecord, may_transition, running, is_terminal_command_status, status_eq,
}
use solana_agent.Contracts.Command.Paths.{status_eq_refl, status_eq_sound, terminal_iff}
use solana_agent.Contracts.Moves.{IsKept, IsMoved}
use solana_agent.Exec.{
  Result, ok, err, Error, Store, after, settle, transaction, whole_seconds, ◌>>=◌, ◌>>◌,
}
use solana_agent.Exec.Inversion.{transaction-ok, >>=-ok}
use solana_agent.Exec.Yields.{Yields}
use solana_agent.Storage.Events.{append_event}
use solana_agent.Storage.Events.Numbered.{append_event-tables}
use solana_agent.Storage.Commands.{
  find_command, get_command, require_command, Patch, moved_row, update_rows, write_transition,
  coalesce, transition_command, command_event, transition_payload,
}

find_command-update :
    (id : String) (f : CommandRecord → CommandRecord) (cs : List CommandRecord)
    {row : CommandRecord}
    → ((c : CommandRecord) → (f c).id ≡ c.id)
    → find_command id cs ≡ some row
    → find_command id (update_rows id row.status f cs) ≡ some (f row)
unfolding find_command update_rows
find_command-update id f [] keeps h = absurd (cc)
find_command-update id f (c ∷ cs) {row} keeps h = ground (
  arith,
  keeps c,
  eq_iff c.id id,
  status_eq_refl c.status,
  find_command-update id f cs {row = row} keeps,
)

pub commands-append_event :
    (run_id : String) (command_id : Option String) (event_type : String) (payload : Json) (at : ℕ)
    (s : Store)
    → (append_event run_id command_id event_type payload at s).1.tables.commands ≡ s.tables.commands
commands-append_event run_id command_id event_type payload at s =
    elim (append_event-tables run_id command_id event_type payload at s) [
      | inl same ↦ rw same
      | inr more ↦ rw more
    ]

moved_row-id :
    (target : CommandStatus) (p : Patch) (now : ℕ) (c : CommandRecord)
    → (moved_row target p now c).id ≡ c.id
unfolding moved_row
moved_row-id target p now c = refl

moved_row-status :
    (target : CommandStatus) (p : Patch) (now : ℕ) (c : CommandRecord)
    → (moved_row target p now c).status ≡ target
unfolding moved_row
moved_row-status target p now c = refl

write_transition-row :
    (id : String) (target : CommandStatus) (p : Patch) (now : ℕ) (s : Store)
    → (write_transition id target p now s).0 ≡ ok tt
    → (row : CommandRecord) × (find_command id s.tables.commands ≡ some row)
      × (may_transition row.status target ≡ true)
      × (find_command id (write_transition id target p now s).1.tables.commands
          ≡ some (moved_row target p now row))
unfolding write_transition ◌>>=◌
write_transition-row id target p now s h = elim (Option-cases (find_command id s.tables.commands)) [
  | inl missing ↦ ground arith
  | inr (row, found) ↦ elim (Bool-cases (may_transition row.status target)) [
    | inl legal ↦ (
      row,
      found,
      legal,
      ground (
        arith,
        find_command-update id (moved_row target p now) s.tables.commands {row = row}
            (moved_row-id target p now),
        commands-append_event row.run_id (some id) (command_event target) (transition_payload p) now
            (record s {
              tables = record s.tables {
                commands = update_rows id row.status (moved_row target p now) s.tables.commands;
              };
            }),
      ),
    )
    | inr illegal ↦ ground arith
  ]
]

require_command-ok :
    (id : String) (s : Store) {row : CommandRecord}
    → (require_command id s).0 ≡ ok row
    → (find_command id s.tables.commands ≡ some row) × (require_command id s ≡ (ok row, s))
unfolding require_command ◌>>=◌
require_command-ok id s {row} h = elim (Option-cases (find_command id s.tables.commands)) [
  | inl missing ↦ ground arith
  | inr (found, here) ↦ (ground arith, ground arith)
]

-- The rest of a transition, after the clock has been read.
write_then_read-ok :
    (id : String) (target : CommandStatus) (p : Patch) (now : ℕ) (s : Store) {moved : CommandRecord}
    → ((transaction (write_transition id target p now) >> require_command id) s).0 ≡ ok moved
    → (row : CommandRecord) × (find_command id s.tables.commands ≡ some row)
      × (may_transition row.status target ≡ true)
      × (moved ≡ moved_row target p now row)
      × (find_command id
            ((transaction (write_transition id target p now) >> require_command id)
              s).1.tables.commands
          ≡ some moved)
write_then_read-ok id target p now s {moved} h =
    let (a, done, ran) =
      >>=-ok (transaction (write_transition id target p now)) (λ _. require_command id) s h in
    let (wrote, whole) = transaction-ok (write_transition id target p now) s done in
    let (row, found, legal, left) = write_transition-row id target p now s wrote in
    let here = ran ∙ ap (λ (r : Result (Unit {0}) × Store). require_command id r.1) whole in
    let (read, same) =
      require_command-ok id _ {row = moved}
        (ap (λ (r : Result CommandRecord × Store). r.0) (sym here) ∙ h) in
    (
      row,
      found,
      legal,
      cc,
      subst (λ (r : Result CommandRecord × Store). find_command id r.1.tables.commands ≡ some moved)
          (sym (here ∙ same)) read,
    )

abbrev ticked : Store → Store
ticked s = record s { clock = λ n. s.clock (suc n) }

-- The columns that the caller may give.
pub record IsPatched (p : Patch) (c d : CommandRecord) : Type 0 where
  pub policy_decision : IsKept p.policy_decision c.policy_decision d.policy_decision
  pub policy_reason : IsKept p.policy_reason c.policy_reason d.policy_reason
  pub approval_id : IsKept p.approval_id c.approval_id d.approval_id
  pub policy_decision_id : IsKept p.policy_decision_id c.policy_decision_id d.policy_decision_id
  pub exit_code : IsKept p.exit_code c.exit_code d.exit_code
  pub result : IsKept p.result c.result d.result
  pub error : IsKept p.error c.error d.error
  pub stdout_artifact_id : IsKept p.stdout_artifact_id c.stdout_artifact_id d.stdout_artifact_id
  pub stderr_artifact_id : IsKept p.stderr_artifact_id c.stderr_artifact_id d.stderr_artifact_id

pub coalesce-IsKept : {A : Type 0} (given old : Option A) → IsKept given old (coalesce given old)
coalesce-IsKept none old = record { stays = λ h. refl; moves = λ a h. absurd (cc) }
coalesce-IsKept (some a) old = record { stays = λ h. absurd (cc); moves = λ b h. h }

moved_row-IsPatched :
    (target : CommandStatus) (p : Patch) (now : ℕ) (c : CommandRecord)
    → IsPatched p c (moved_row target p now c)
unfolding moved_row
moved_row-IsPatched target p now c = record {
  policy_decision = coalesce-IsKept _ _;
  policy_reason = coalesce-IsKept _ _;
  approval_id = coalesce-IsKept _ _;
  policy_decision_id = coalesce-IsKept _ _;
  exit_code = coalesce-IsKept _ _;
  result = coalesce-IsKept _ _;
  error = coalesce-IsKept _ _;
  stdout_artifact_id = coalesce-IsKept _ _;
  stderr_artifact_id = coalesce-IsKept _ _;
}

pub moved_row-IsMoved :
    (target : CommandStatus) (p : Patch) (now : ℕ) (c : CommandRecord)
    → IsMoved target now c (moved_row target p now c)
unfolding moved_row is_terminal_command_status
moved_row-IsMoved target p now c = record {
  work = record {
    id = refl;
    adapter = refl;
    operation = refl;
    arguments = refl;
    cwd = refl;
    timeout_seconds = refl;
  };
  plan = record {
    run_id = refl;
    step_id = refl;
    idempotency_key = refl;
    expected_state = refl;
    created_at = refl;
  };
  status = refl;
  updated_at = refl;
  started = λ is. rw is refl;
  not_started = λ other. elim (Bool-cases (status_eq target running)) [
    | inl same ↦ absurd (other (status_eq_sound target running same))
    | inr differs ↦ rw differs refl
  ];
  finished = λ none_left. rw ((terminal_iff target).1 none_left) refl;
  not_finished = λ next legal. elim (Bool-cases (is_terminal_command_status target)) [
    | inl ends ↦ absurd (cc (legal, (terminal_iff target).0 ends next))
    | inr goes ↦ rw goes refl
  ];
}

-- The row returned is the one that the UPDATE writes, and the table has it.
transition_command-row :
    (id : String) (target : CommandStatus) (p : Patch) (s : Store) {moved : CommandRecord}
    → (transition_command id target p s).0 ≡ ok moved
    → (row : CommandRecord) × (find_command id s.tables.commands ≡ some row)
      × (may_transition row.status target ≡ true)
      × (moved ≡ moved_row target p (whole_seconds (s.clock 0)) row)
      × (find_command id (transition_command id target p s).1.tables.commands ≡ some moved)
unfolding transition_command
transition_command-row id target p s {moved} h =
    let rest =
      write_then_read-ok id target p (whole_seconds (s.clock 0)) (ticked s) {moved = moved} in
    let clocked : transition_command id target p s
        ≡ (transaction (write_transition id target p (whole_seconds (s.clock 0)))
              >> require_command id)
            (ticked s) =
      unfold ◌>>=◌ in refl in
    let (row, found, legal, is, left) =
      rest (ap (λ (r : Result CommandRecord × Store). r.0) (sym clocked) ∙ h) in
    (
      row,
      found,
      legal,
      is,
      subst (λ (r : Result CommandRecord × Store). find_command id r.1.tables.commands ≡ some moved)
          (sym clocked) left,
    )

-- Where `transition_command` returns, the table had the command, its status may move to the target, and
-- the row returned and now in the table has the target as its status, the clock's second as its time of
-- change, as its time of start where it is now running, and as its time of end exactly where no move
-- leaves the target; the columns that the caller gave have those values; and all the others, what is to
-- be run among them, are as they were.
pub transition_command-ok :
    (id : String) (target : CommandStatus) (p : Patch) (s : Store) {moved : CommandRecord}
    → (transition_command id target p s).0 ≡ ok moved
    → (row : CommandRecord) × (find_command id s.tables.commands ≡ some row)
      × (may_transition row.status target ≡ true)
      × IsMoved target (whole_seconds (s.clock 0)) row moved
      × IsPatched p row moved
      × (find_command id (transition_command id target p s).1.tables.commands ≡ some moved)
transition_command-ok id target p s {moved} h =
    let now = whole_seconds (s.clock 0) in
    let (row, found, legal, is, left) = transition_command-row id target p s {moved = moved} h in
    (
      row,
      found,
      legal,
      rw is (moved_row-IsMoved target p now row),
      rw is (moved_row-IsPatched target p now row),
      left,
    )

pub transition_command-status :
    (id : String) (target : CommandStatus) (p : Patch)
    → Yields (λ row. row.status ≡ target) (transition_command id target p)
transition_command-status id target p = record {
  at = λ s {a} h.
      let (row, found, legal, is, left) = transition_command-row id target p s h in
      rw is (moved_row-status target p (whole_seconds (s.clock 0)) row);
}

require_command-found :
    (id : String) (s : Store) {row : CommandRecord} {e : Error}
    → find_command id s.tables.commands ≡ some row
    → (require_command id s).0 ≡ err e
    → ⊥
unfolding require_command get_command ◌>>=◌
require_command-found id s {row} {e} found h = ground (arith, found, h)

write_then_read-atomic :
    (id : String) (target : CommandStatus) (p : Patch) (now : ℕ) (s : Store) {e : Error}
    → ((transaction (write_transition id target p now) >> require_command id) s).0 ≡ err e
    → ((transaction (write_transition id target p now) >> require_command id) s).1.tables ≡ s.tables
unfolding ◌>>=◌ transaction
write_then_read-atomic id target p now s {e} h = settled (write_transition id target p now s) refl h
  where
    settled :
        (r : Result (Unit {0}) × Store)
        → write_transition id target p now s ≡ r
        → (after (λ _. require_command id) (settle s.tables r)).0 ≡ err e
        → (after (λ _. require_command id) (settle s.tables r)).1.tables ≡ s.tables
    settled (err x, t) ran h = refl
    settled (ok tt, t) ran h =
        let (row, found, legal, left) =
          write_transition-row id target p now s
            (ap (λ (r : Result (Unit {0}) × Store). r.0) ran) in
        absurd (
          require_command-found id t {row = moved_row target p now row}
            (subst
              (λ (r : Result (Unit {0}) × Store).
                find_command id r.1.tables.commands ≡ some (moved_row target p now row))
              ran left)
            h)

-- Where `transition_command` raises, on whatever branch, the tables are as they were before the call.
pub transition_command-atomic :
    (id : String) (target : CommandStatus) (p : Patch) (s : Store) {e : Error}
    → (transition_command id target p s).0 ≡ err e
    → (transition_command id target p s).1.tables ≡ s.tables
unfolding transition_command
transition_command-atomic id target p s {e} h =
    let now = whole_seconds (s.clock 0) in
    let clocked : transition_command id target p s
        ≡ (transaction (write_transition id target p now) >> require_command id) (ticked s) =
      unfold ◌>>=◌ in refl in
    ap (λ (r : Result CommandRecord × Store). r.1.tables) clocked
    ∙ write_then_read-atomic id target p now (ticked s) {e = e}
        (ap (λ (r : Result CommandRecord × Store). r.0) (sym clocked) ∙ h)
