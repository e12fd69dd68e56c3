-- ===== src/Storage/Commands/Work.antt =====
-- The work of a command stays in its row of `commands`, whatever the repository writes.
use solana_agent.Prelude.{
  ℕ, String, ◌≡◌, ◌∙◌, refl, sym, ap, subst, true, false, ◌==◌, ◌&&◌, Option, none, some, List, [],
  ◌∷◌, inl, inr, Bool-cases, if◌then◌else◌,
}
use solana_agent.Json.{Json}
use solana_agent.Contracts.Command.{CommandStatus, CommandRecord, status_eq}
use solana_agent.Contracts.Moves.{IsSameWork}
use solana_agent.Storage.Tables.{Tables}
use solana_agent.Exec.{ok, Store, modify}
use solana_agent.Exec.Preserves.{Preserves, Preserves-modify, Preserves-transaction_of, preserving}
use solana_agent.Exec.Yields.{Finds}
use solana_agent.Storage.Events.{append_event}
use solana_agent.Storage.Commands.{
  find_command, update_rows, moved_row, Patch, transition_command, write_transition,
  require_command,
}
use solana_agent.Env.{Env}
use solana_agent.Prelude.Int.{ℤ}
use solana_agent.Contracts.Authority.{PolicyDecision, PolicyDecisionRecord}
use solana_agent.Storage.Approvals.{
  require_policy_decision, create_policy_decision, require_approval, create_approval,
  consume_approval, expire_approval,
}
use solana_agent.Authority.Approvals.{request, consume, consume_checked}
use solana_agent.Storage.Commands.Replay.{find_command-id}
use solana_agent.Storage.Commands.Changes.{
  commands-append_event, moved_row-IsMoved, transition_command-ok,
}

pub IsSameWork-refl : (c : CommandRecord) → IsSameWork c c
IsSameWork-refl c = record {
  id = refl;
  adapter = refl;
  operation = refl;
  arguments = refl;
  cwd = refl;
  timeout_seconds = refl;
}

pub IsSameWork-trans : (c d e : CommandRecord) → IsSameWork c d → IsSameWork d e → IsSameWork c e
IsSameWork-trans c d e h k = record {
  id = k.id ∙ h.id;
  adapter = k.adapter ∙ h.adapter;
  operation = k.operation ∙ h.operation;
  arguments = k.arguments ∙ h.arguments;
  cwd = k.cwd ∙ h.cwd;
  timeout_seconds = k.timeout_seconds ∙ h.timeout_seconds;
}

-- The table has a row for the command, with its work.
pub record HasWork (c : CommandRecord) (t : Tables) : Type 0 where
  pub row : CommandRecord
  pub found : find_command c.id t.commands ≡ some row
  pub work : IsSameWork c row

some_injective : {x y : CommandRecord} → some x ≡ some y → x ≡ y
some_injective h = cc

module _ (id : String) (status : CommandStatus) (f : CommandRecord → CommandRecord)
    (keeps : (c : CommandRecord) → IsSameWork c (f c)) where
  updated_row : CommandRecord → CommandRecord
  updated_row c = if c.id == id && status_eq c.status status then f c else c

  updated_row-IsSameWork : (c : CommandRecord) → IsSameWork c (updated_row c)
  unfolding updated_row
  updated_row-IsSameWork c = elim (Bool-cases (c.id == id && status_eq c.status status)) [
    | inl hit ↦ rw hit (keeps c)
    | inr miss ↦ rw miss (IsSameWork-refl c)
  ]

  find_command-update_rows :
      (x : String) (cs : List CommandRecord) {row : CommandRecord}
      → find_command x cs ≡ some row
      → find_command x (update_rows id status f cs) ≡ some (updated_row row)
  unfolding find_command update_rows updated_row
  find_command-update_rows x [] {row} h = absurd (cc)
  find_command-update_rows x (c ∷ cs) {row} h =
      let same : (updated_row c).id ≡ c.id = (updated_row-IsSameWork c).id in
      elim (Bool-cases (c.id == x)) [
        | inl hit ↦ chosen (ap (λ y. y == x) same ∙ hit) (taken hit h)
        | inr miss ↦
            subst
              (λ b.
                (if b then some (updated_row c) else find_command x (update_rows id status f cs))
                ≡ some (updated_row row))
              (sym (ap (λ y. y == x) same ∙ miss))
              (find_command-update_rows x cs {row = row} (skipped miss h))
      ]
    where
      skipped :
          c.id == x ≡ false
          → (if c.id == x then some c else find_command x cs) ≡ some row
          → find_command x cs ≡ some row
      skipped miss k = subst (λ b. (if b then some c else find_command x cs) ≡ some row) miss k

      taken :
          c.id == x ≡ true → (if c.id == x then some c else find_command x cs) ≡ some row → c ≡ row
      taken hit k =
          some_injective (subst (λ b. (if b then some c else find_command x cs) ≡ some row) hit k)

      chosen :
          (updated_row c).id == x ≡ true
          → c ≡ row
          → (if (updated_row c).id == x
              then some (updated_row c)
              else find_command x (update_rows id status f cs))
            ≡ some (updated_row row)
      chosen hit k =
          subst
            (λ b.
              (if b then some (updated_row c) else find_command x (update_rows id status f cs))
              ≡ some (updated_row row))
            (sym hit) (ap (λ d. some (updated_row d)) k)

module _ {c : CommandRecord} where
  HasWork-quiet :
      (f : Tables → Tables)
      → ((t : Tables) → (f t).commands ≡ t.commands)
      → Preserves (HasWork c) (modify f)
  HasWork-quiet f same =
      Preserves-modify f (λ t h. record { row = h.row; found = rw (same t) h.found; work = h.work })

  append_event-HasWork :
      (run_id : String) (command_id : Option String) (event_type : String) (payload : Json) (at : ℕ)
      → Preserves (HasWork c) (append_event run_id command_id event_type payload at)
  append_event-HasWork run_id command_id event_type payload at = record {
    at = λ s h. record {
      row = h.row;
      found =
          ap (find_command c.id) (commands-append_event run_id command_id event_type payload at s)
          ∙ h.found;
      work = h.work;
    };
  }

  HasWork-update_rows :
      (id : String) (status target : CommandStatus) (p : Patch) (now : ℕ)
      → Preserves (HasWork c) (
          modify (λ t. record t {
            commands = update_rows id status (moved_row target p now) t.commands;
          }))
  HasWork-update_rows id status target p now = Preserves-modify _ (λ t h.
      let keeps = λ (d : CommandRecord). (moved_row-IsMoved target p now d).work in
      record {
        row = updated_row id status (moved_row target p now) keeps h.row;
        found =
            find_command-update_rows id status (moved_row target p now) keeps c.id t.commands
              {row = h.row} h.found;
        work =
            IsSameWork-trans c h.row _ h.work
              (updated_row-IsSameWork id status (moved_row target p now) keeps h.row);
      })

  pub transition_command-HasWork :
      (id : String) (target : CommandStatus) (p : Patch)
      → Preserves (HasWork c) (transition_command id target p)
  unfolding transition_command require_command write_transition
  transition_command-HasWork id target p =
      search (preserving, Preserves-transaction_of, HasWork-update_rows, append_event-HasWork) depth
        16

  -- What the transition of the command returns has its work.
  pub transition_command-Finds :
      (id : String) (target : CommandStatus) (p : Patch)
      → id ≡ c.id
      → Finds (HasWork c) (IsSameWork c) (transition_command id target p)
  transition_command-Finds id target p same = record {
    at = λ s h {a} returned.
        let (row, found, legal, is_moved, patched, left) =
          transition_command-ok id target p s {moved = a} returned in
        let is_row : h.row ≡ row =
          some_injective
            (sym h.found ∙ (ap (λ x. find_command x s.tables.commands) (sym same) ∙ found)) in
        IsSameWork-trans c row a (subst (IsSameWork c) is_row h.work) is_moved.work;
  }

ruleset work_rules = (
  preserving, Preserves-transaction_of, HasWork-quiet, append_event-HasWork,
  transition_command-HasWork,
)

module _ {c : CommandRecord} where
  pub create_policy_decision-HasWork :
      (command : CommandRecord) (decision : PolicyDecision)
      → Preserves (HasWork c) (create_policy_decision command decision)
  unfolding create_policy_decision require_policy_decision
  create_policy_decision-HasWork command decision = search work_rules depth 16

  pub request-HasWork :
      (env : Env) (ttl : ℤ) (command : CommandRecord) (saved : PolicyDecisionRecord)
      → Preserves (HasWork c) (request env ttl command saved none)
  unfolding request create_approval require_approval require_command
  request-HasWork env ttl command saved = search work_rules depth 24

  pub consume-HasWork :
      (env : Env) (id : String) (command : CommandRecord)
      → Preserves (HasWork c) (consume env id command)
  unfolding consume consume_checked consume_approval expire_approval require_approval
      require_policy_decision
  consume-HasWork env id command = search work_rules depth 24

-- A row of the table has its own work.
pub stored-HasWork :
    (id : String) (row : CommandRecord) (t : Tables)
    → find_command id t.commands ≡ some row
    → HasWork row t
stored-HasWork id row t found = record {
  row = row;
  found = ap (λ x. find_command x t.commands) (find_command-id id t.commands found) ∙ found;
  work = IsSameWork-refl row;
}

-- The command that a transition returns is in the table.
pub transition_command-starts :
    (id : String) (target : CommandStatus) (p : Patch) (s : Store) (moved : CommandRecord)
    → (transition_command id target p s).0 ≡ ok moved
    → HasWork moved (transition_command id target p s).1.tables
transition_command-starts id target p s moved returned =
    let (row, found, legal, is_moved, patched, left) =
      transition_command-ok id target p s {moved = moved} returned in
    stored-HasWork id moved _ left
