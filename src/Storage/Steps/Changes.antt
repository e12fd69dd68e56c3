-- ===== src/Storage/Steps/Changes.antt =====
-- What `set_mission_step_status` does (solana_agent/storage/repositories.py).
use solana_agent.Prelude.{
  ℕ, suc, String, ◌≡◌, ◌∙◌, refl, sym, ap, subst, inl, inr, true, Option, some, List, [], ◌∷◌,
  arith, Option-cases, Bool-cases,
}
use solana_agent.Json.{Json}
use solana_agent.Contracts.Mission.{MissionStepStatus, MissionStepRecord, may_step}
use solana_agent.Exec.{
  Result, ok, err, Store, Error, after, settle, transaction, whole_seconds, ◌>>=◌, ◌>>◌,
}
use solana_agent.Contracts.Moves.{IsStepMoved}
use solana_agent.Storage.Commands.Changes.{coalesce-IsKept}
use solana_agent.Exec.Inversion.{transaction-ok, >>=-ok}
use solana_agent.Storage.Events.{append_event}
use solana_agent.Storage.Events.Numbered.{append_event-tables}
use solana_agent.Storage.Steps.{
  is_step, find_step, require_mission_step, StepPatch, next_attempt, stepped_row, update_steps,
  event_command, step_event, step_payload, reference_known, write_step_status,
  set_mission_step_status,
}

find_step-update :
    (run_id step_id : String) (f : MissionStepRecord → MissionStepRecord)
    (rs : List MissionStepRecord) {row : MissionStepRecord}
    → ((r : MissionStepRecord) → is_step run_id step_id (f r) ≡ is_step run_id step_id r)
    → find_step run_id step_id rs ≡ some row
    → find_step run_id step_id (update_steps run_id step_id f rs) ≡ some (f row)
unfolding find_step update_steps
find_step-update run_id step_id f [] keeps h = absurd (cc)
find_step-update run_id step_id f (r ∷ rs) {row} keeps h =
    ground (arith, keeps r, find_step-update run_id step_id f rs {row = row} keeps)

steps-append_event :
    (run_id : String) (command_id : Option String) (event_type : String) (payload : Json) (at : ℕ)
    (s : Store)
    → (append_event run_id command_id event_type payload at s).1.tables.mission_steps
      ≡ s.tables.mission_steps
steps-append_event run_id command_id event_type payload at s =
    elim (append_event-tables run_id command_id event_type payload at s) [
      | inl same ↦ rw same
      | inr more ↦ rw more
    ]

write_step_status-row :
    (run_id step_id : String) (status : MissionStepStatus) (p : StepPatch) (now : ℕ) (s : Store)
    → (write_step_status run_id step_id status p now s).0 ≡ ok tt
    → (row : MissionStepRecord) × (find_step run_id step_id s.tables.mission_steps ≡ some row)
      × (may_step row.status status ≡ true)
      × (find_step run_id step_id
            (write_step_status run_id step_id status p now s).1.tables.mission_steps
          ≡ some (stepped_row status p (next_attempt p row) now row))
unfolding write_step_status ◌>>=◌
write_step_status-row run_id step_id status p now s h =
    elim (Option-cases (find_step run_id step_id s.tables.mission_steps)) [
      | inl missing ↦ ground arith
      | inr (row, found) ↦ elim (Bool-cases (may_step row.status status)) [
        | inr illegal ↦ ground arith
        | inl legal ↦ elim (Bool-cases (reference_known p.command_id s.tables)) [
          | inr unknown ↦ ground arith
          | inl known ↦ (
            row,
            found,
            legal,
            ground (
              arith,
              find_step-update run_id step_id (stepped_row status p (next_attempt p row) now)
                  s.tables.mission_steps {row = row} (λ r. refl),
              steps-append_event run_id (event_command p.command_id row.command_id)
                  (step_event status) (step_payload step_id (next_attempt p row) p) now
                  (record s {
                    tables = record s.tables {
                      mission_steps =
                          update_steps run_id step_id
                            (stepped_row status p (next_attempt p row) now) s.tables.mission_steps;
                    };
                  }),
            ),
          )
        ]
      ]
    ]

require_mission_step-ok :
    (run_id step_id : String) (s : Store) {row : MissionStepRecord}
    → (require_mission_step run_id step_id s).0 ≡ ok row
    → (find_step run_id step_id s.tables.mission_steps ≡ some row)
      × (require_mission_step run_id step_id s ≡ (ok row, s))
unfolding require_mission_step ◌>>=◌
require_mission_step-ok run_id step_id s {row} h =
    elim (Option-cases (find_step run_id step_id s.tables.mission_steps)) [
      | inl missing ↦ ground arith
      | inr (found, here) ↦ (ground arith, ground arith)
    ]

abbrev ticked : Store → Store
ticked s = record s { clock = λ n. s.clock (suc n) }

-- The row returned is the one that the UPDATE writes, and the table has it.
set_mission_step_status-row :
    (run_id step_id : String) (status : MissionStepStatus) (p : StepPatch) (s : Store)
    {moved : MissionStepRecord}
    → (set_mission_step_status run_id step_id status p s).0 ≡ ok moved
    → (row : MissionStepRecord) × (find_step run_id step_id s.tables.mission_steps ≡ some row)
      × (may_step row.status status ≡ true)
      × (moved ≡ stepped_row status p (next_attempt p row) (whole_seconds (s.clock 0)) row)
      × (find_step run_id step_id
            (set_mission_step_status run_id step_id status p s).1.tables.mission_steps
          ≡ some moved)
unfolding set_mission_step_status
set_mission_step_status-row run_id step_id status p s {moved} h =
    let now = whole_seconds (s.clock 0) in
    let write = write_step_status run_id step_id status p now in
    let clocked : set_mission_step_status run_id step_id status p s
        ≡ (transaction write >> require_mission_step run_id step_id) (ticked s) =
      unfold ◌>>=◌ in refl in
    let h' : ((transaction write >> require_mission_step run_id step_id) (ticked s)).0 ≡ ok moved =
      ap (λ (r : Result MissionStepRecord × Store). r.0) (sym clocked) ∙ h in
    let (a, done, ran) =
      >>=-ok (transaction write) (λ _. require_mission_step run_id step_id) (ticked s) h' in
    let (wrote, whole) = transaction-ok write (ticked s) done in
    let (row, found, legal, left) =
      write_step_status-row run_id step_id status p now (ticked s) wrote in
    let here =
      ran ∙ ap (λ (r : Result (Unit {0}) × Store). require_mission_step run_id step_id r.1) whole in
    let (read, same) =
      require_mission_step-ok run_id step_id _ {row = moved}
        (ap (λ (r : Result MissionStepRecord × Store). r.0) (sym here) ∙ h') in
    (
      row,
      found,
      legal,
      cc (left, read),
      subst
          (λ (r : Result MissionStepRecord × Store).
            find_step run_id step_id r.1.tables.mission_steps ≡ some moved)
          (sym (clocked ∙ (here ∙ same))) read,
    )

stepped_row-IsStepMoved :
    (status : MissionStepStatus) (p : StepPatch) (now : ℕ) (row : MissionStepRecord)
    → IsStepMoved status p.increment_attempt p.command_id p.result p.error now row
        (stepped_row status p (next_attempt p row) now row)
stepped_row-IsStepMoved status p now row = record {
  run_id = refl;
  step_id = refl;
  definition_hash = refl;
  created_at = refl;
  status = refl;
  attempted = λ more. rw more (omega arith);
  not_attempted = λ same. rw same (omega arith);
  command = coalesce-IsKept p.command_id row.command_id;
  result = refl;
  error = refl;
  updated_at = refl;
}

-- Where `set_mission_step_status` returns, the table had the step, its status may move to the given
-- one, and the row returned and now in the table has that status, the clock's second, the result and
-- the error given, the command given or the one it had, one attempt more exactly where the caller asked
-- for it, and all else as it was.
pub set_mission_step_status-ok :
    (run_id step_id : String) (status : MissionStepStatus) (p : StepPatch) (s : Store)
    {moved : MissionStepRecord}
    → (set_mission_step_status run_id step_id status p s).0 ≡ ok moved
    → (row : MissionStepRecord) × (find_step run_id step_id s.tables.mission_steps ≡ some row)
      × (may_step row.status status ≡ true)
      × IsStepMoved status p.increment_attempt p.command_id p.result p.error
          (whole_seconds (s.clock 0))
          row
          moved
      × (find_step run_id step_id
            (set_mission_step_status run_id step_id status p s).1.tables.mission_steps
          ≡ some moved)
set_mission_step_status-ok run_id step_id status p s {moved} h =
    let (row, found, legal, is, left) =
      set_mission_step_status-row run_id step_id status p s {moved = moved} h in
    (
      row,
      found,
      legal,
      rw is (stepped_row-IsStepMoved status p (whole_seconds (s.clock 0)) row),
      left,
    )

require_mission_step-found :
    (run_id step_id : String) (s : Store) {row : MissionStepRecord} {e : Error}
    → find_step run_id step_id s.tables.mission_steps ≡ some row
    → (require_mission_step run_id step_id s).0 ≡ err e
    → ⊥
unfolding require_mission_step ◌>>=◌
require_mission_step-found run_id step_id s {row} {e} found h = ground (arith, found, h)

write_then_read-atomic :
    (run_id step_id : String) (status : MissionStepStatus) (p : StepPatch) (now : ℕ) (s : Store)
    {e : Error}
    → let both =
        (transaction (write_step_status run_id step_id status p now)
            >> require_mission_step run_id step_id)
          s in
      both.0 ≡ err e → both.1.tables ≡ s.tables
unfolding ◌>>=◌ transaction
write_then_read-atomic run_id step_id status p now s {e} h =
    settled (write_step_status run_id step_id status p now s) refl h
  where
    settled :
        (r : Result (Unit {0}) × Store)
        → write_step_status run_id step_id status p now s ≡ r
        → (after (λ _. require_mission_step run_id step_id) (settle s.tables r)).0 ≡ err e
        → (after (λ _. require_mission_step run_id step_id) (settle s.tables r)).1.tables ≡ s.tables
    settled (err x, t) ran h = refl
    settled (ok tt, t) ran h =
        let (row, found, legal, left) =
          write_step_status-row run_id step_id status p now s
            (ap (λ (r : Result (Unit {0}) × Store). r.0) ran) in
        absurd (
          require_mission_step-found run_id step_id t
            (subst
              (λ (r : Result (Unit {0}) × Store).
                find_step run_id step_id r.1.tables.mission_steps
                ≡ some (stepped_row status p (next_attempt p row) now row))
              ran left)
            h)

-- Where `set_mission_step_status` raises, on whatever branch, the tables are as they were before the
-- call.
pub set_mission_step_status-atomic :
    (run_id step_id : String) (status : MissionStepStatus) (p : StepPatch) (s : Store) {e : Error}
    → (set_mission_step_status run_id step_id status p s).0 ≡ err e
    → (set_mission_step_status run_id step_id status p s).1.tables ≡ s.tables
unfolding set_mission_step_status
set_mission_step_status-atomic run_id step_id status p s {e} h =
    let now = whole_seconds (s.clock 0) in
    let clocked : set_mission_step_status run_id step_id status p s
        ≡ (transaction (write_step_status run_id step_id status p now)
              >> require_mission_step run_id step_id)
            (ticked s) =
      unfold ◌>>=◌ in refl in
    ap (λ (r : Result MissionStepRecord × Store). r.1.tables) clocked
    ∙ write_then_read-atomic run_id step_id status p now (ticked s) {e = e}
        (ap (λ (r : Result MissionStepRecord × Store). r.0) (sym clocked) ∙ h)
