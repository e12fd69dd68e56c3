-- ===== src/Storage/Approvals/Changes.antt =====
-- What the updates of an approval do to the row of that approval.
use mathlib.Core.Option
use solana_agent.Prelude.{
  ℕ, suc, subst, String, ◌≡◌, refl, inl, inr, true, false, ◌||◌, eq_iff, Option, some, List, [],
  ◌∷◌, arith, Option-cases, Bool-cases, sym, ◌∙◌, ap,
}
use solana_agent.Json.{Json, text, dict}
use solana_agent.Contracts.Authority.{ApprovalRecord, expired, consumed}
use solana_agent.Exec.{Result, ok, Store, Action, transaction, utc_now, whole_seconds, ◌>>=◌, ◌>>◌}
use solana_agent.Exec.Inversion.{transaction-ok, >>=-ok}
use solana_agent.Storage.Events.{append_event}
use solana_agent.Storage.Events.Numbered.{append_event-tables}
use solana_agent.Storage.Approvals.{
  find_approval, update_approvals, is_pending, is_approved, require_approval, write_expired,
  expire_approval, write_consumed, consume_approval, change_approval,
}

-- An update that keeps the identifiers acts on the row that is found.
pub find_approval-update :
    (id : String) (f : ApprovalRecord → ApprovalRecord) (rows : List ApprovalRecord)
    → ((a : ApprovalRecord) → (f a).id ≡ a.id)
    → find_approval id (update_approvals id f rows) ≡ Option.map f (find_approval id rows)
unfolding find_approval update_approvals
find_approval-update id f [] keeps = refl
find_approval-update id f (a ∷ rows) keeps =
    ground (arith, keeps a, eq_iff a.id id, find_approval-update id f rows keeps)

pub find_approval-id :
    (id : String) (rows : List ApprovalRecord) {row : ApprovalRecord}
    → find_approval id rows ≡ some row
    → row.id ≡ id
unfolding find_approval
find_approval-id id [] h = cc
find_approval-id id (a ∷ rows) {row} h =
    ground (arith, eq_iff a.id id, find_approval-id id rows {row = row})

pub approvals-append_event :
    (run_id : String) (command_id : Option String) (event_type : String) (payload : Json) (at : ℕ)
    (s : Store)
    → (append_event run_id command_id event_type payload at s).1.tables.approvals
      ≡ s.tables.approvals
approvals-append_event run_id command_id event_type payload at s =
    elim (append_event-tables run_id command_id event_type payload at s) [
      | inl same ↦ rw same
      | inr more ↦ rw more
    ]

abbrev expire_row : ApprovalRecord → ApprovalRecord
expire_row a = record a { status = expired }

abbrev consume_row : ℕ → ApprovalRecord → ApprovalRecord
consume_row now a = record a { status = consumed; consumed_at = some now }

-- A consumption finds an approved row, and leaves it consumed.
write_consumed-ok :
    (id : String) (now : ℕ) (s : Store)
    → (write_consumed id now s).0 ≡ ok tt
    → (row : ApprovalRecord) × (find_approval id s.tables.approvals ≡ some row)
      × (is_approved row.status ≡ true)
      × (find_approval id (write_consumed id now s).1.tables.approvals ≡ some (consume_row now row))
unfolding write_consumed ◌>>=◌
write_consumed-ok id now s h = elim (Option-cases (find_approval id s.tables.approvals)) [
  | inl missing ↦ ground arith
  | inr (row, found) ↦ elim (Bool-cases (is_approved row.status)) [
    | inl ready ↦ (
      row,
      found,
      ready,
      ground (
        arith,
        approvals-append_event row.run_id (some row.command_id) "approval.consumed"
            (dict (("approval_id", text id) ∷ [])) now
            (record s { tables = change_approval id (consume_row now) s.tables }),
        find_approval-update id (consume_row now) s.tables.approvals (λ a. refl),
      ),
    )
    | inr other ↦ ground arith
  ]
]

-- An expiry leaves the row that it finds unusable.
write_expired-ok :
    (id : String) (now : ℕ) (s : Store)
    → (write_expired id now s).0 ≡ ok tt
    → (row : ApprovalRecord) × (find_approval id (write_expired id now s).1.tables.approvals
        ≡ some row)
      × (is_approved row.status ≡ false)
unfolding write_expired ◌>>=◌
write_expired-ok id now s h = elim (Option-cases (find_approval id s.tables.approvals)) [
  | inl missing ↦ ground arith
  | inr (row, found) ↦ elim (Bool-cases (is_pending row.status || is_approved row.status)) [
    | inl open_row ↦ (
      expire_row row,
      ground (
        arith,
        approvals-append_event row.run_id (some row.command_id) "approval.expired"
            (dict (("approval_id", text id) ∷ [])) now
            (record s { tables = change_approval id expire_row s.tables }),
        find_approval-update id expire_row s.tables.approvals (λ a. refl),
      ),
      refl,
    )
    | inr closed ↦ (row, ground arith, ground arith)
  ]
]

pub require_approval-ok :
    (id : String) (s : Store) {a : ApprovalRecord}
    → (require_approval id s).0 ≡ ok a
    → (find_approval id s.tables.approvals ≡ some a) × (require_approval id s ≡ (ok a, s))
unfolding require_approval ◌>>=◌
require_approval-ok id s h = elim (Option-cases (find_approval id s.tables.approvals)) [
  | inl missing ↦ ground arith
  | inr (row, found) ↦ (ground arith, ground arith)
]

-- What a method made of one transaction and a reading of the row tells when it returns.
transacted :
    (id : String) (write : ℕ → Action (Unit {0})) (s : Store) {a : ApprovalRecord}
    → ((do now ← utc_now; transaction (write now); require_approval id) s).0 ≡ ok a
    → (now : ℕ) × (before : Store) × (before.tables ≡ s.tables)
      × ((write now before).0 ≡ ok tt)
      × (find_approval id (write now before).1.tables.approvals ≡ some a)
      × ((do now ← utc_now; transaction (write now); require_approval id) s
          ≡ (ok a, (write now before).1))
unfolding ◌>>=◌
transacted id write s {a} h =
    let start : Store = record s { clock = λ n. s.clock (suc n) } in
    let now = whole_seconds (s.clock 0) in
    let rest : Action ApprovalRecord = transaction (write now) >> require_approval id in
    let h' : (rest start).0 ≡ ok a = h in
    let (u, done, rest_eq) = >>=-ok (transaction (write now)) (λ _. require_approval id) start h' in
    let (wrote, same) = transaction-ok (write now) start done in
    let (found, read) =
      require_approval-ok id (transaction (write now) start).1 (ap (λ r. r.0) (sym rest_eq) ∙ h') in
    (
      now,
      start,
      refl,
      wrote,
      subst (λ (r : Result (Unit {0}) × Store). find_approval id r.1.tables.approvals ≡ some a) same
          found,
      rest_eq ∙ (read ∙ ap (λ (r : Result (Unit {0}) × Store). (ok a, r.1)) same),
    )

-- `consume_approval` returns only for an approved row, and leaves that row consumed.
pub consume_approval-ok :
    (id : String) (s : Store) {a : ApprovalRecord}
    → (consume_approval id s).0 ≡ ok a
    → (row : ApprovalRecord) × (find_approval id s.tables.approvals ≡ some row)
      × (is_approved row.status ≡ true)
      × (find_approval id (consume_approval id s).1.tables.approvals ≡ some a)
      × (a.status ≡ consumed)
unfolding consume_approval
consume_approval-ok id s {a} h =
    let (now, before, same, wrote, found, ran) = transacted id (write_consumed id) s h in
    let (row, was, ready, left) = write_consumed-ok id now before wrote in
    let a-eq : consume_row now row ≡ a = cc (left, found) in
    (row, rw same at was, ready, rw ran found, rw (← a-eq) refl)

-- What `expire_approval` returns cannot be used.
pub expire_approval-ok :
    (id : String) (s : Store) {a : ApprovalRecord}
    → (expire_approval id s).0 ≡ ok a
    → is_approved a.status ≡ false
unfolding expire_approval
expire_approval-ok id s {a} h =
    let (now, before, same, wrote, found, ran) = transacted id (write_expired id) s h in
    let (row, left, unusable) = write_expired-ok id now before wrote in
    let row-eq : row ≡ a = cc (left, found) in
    subst (λ (r : ApprovalRecord). is_approved r.status ≡ false) row-eq unusable
