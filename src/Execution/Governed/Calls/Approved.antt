-- ===== src/Execution/Governed/Calls/Approved.antt =====
-- The requests that `CommandJournal.execute_approved` makes (solana_agent/execution/journal.py).
use solana_agent.Prelude.{
  String, ◌≡◌, ◌∙◌, refl, sym, ap, subst, Option, none, some, ◌∷◌, inl, inr, ◌⊎◌, Option-cases,
  Bool-cases,
}
use solana_agent.Prelude.Int.{ℤ}
use solana_agent.Contracts.Authority.{ApprovalRecord}
use solana_agent.Contracts.Command.{CommandRecord, approval_required, status_eq}
use solana_agent.Contracts.Command.Paths.{status_eq_sound}
use solana_agent.Exec.{Error, Result, ok, err, Store, approval_error, ◌>>=◌}
use solana_agent.Exec.Silent.{IsSilent, CallsOnce, silent_rules}
use solana_agent.Exec.Yields.{CallsOnce-given}
use solana_agent.Execution.Executor.{ExecutionRequest, Executor}
use solana_agent.Env.{Env}
use solana_agent.Storage.Commands.{find_command, get_command, require_command}
use solana_agent.Storage.Commands.Work.{
  HasWork, stored-HasWork, transition_command-HasWork, transition_command-Finds, consume-HasWork,
}
use solana_agent.Storage.Commands.Replay.{find_command-id}
use solana_agent.Storage.Quiet.{
  transition_command-IsSilent, consume_approval-IsSilent, expire_approval-IsSilent,
  require_approval-IsSilent, require_policy_decision-IsSilent,
}
use solana_agent.Authority.Approvals.{consume, consume_checked}
use solana_agent.Execution.Journal.{CommandJournal}
use solana_agent.Execution.Governed.Calls.{IsRequestOf, execute_authorized-CallsOnce}
use solana_agent.Execution.Governed.Approved.{
  usable, invalid, failed_consume, try_consume, run_approved, with_request, execute_approved,
  service_and_request,
}

module _ (env : Env) where
  consume-IsSilent : (id : String) (command : CommandRecord) → IsSilent (consume env id command)
  unfolding consume consume_checked
  consume-IsSilent id command =
      search
        (
          silent_rules, consume_approval-IsSilent, expire_approval-IsSilent,
          require_approval-IsSilent, require_policy_decision-IsSilent,
        )
        depth 20

  -- The executor had one more request, for this command, whose approval had been consumed.
  abbrev pub Ran : CommandRecord → String → Store → Store → Type 0
  Ran row id s t =
      (r : ExecutionRequest) × (a : ApprovalRecord) × IsRequestOf row r
      × ((consume env id row s).0 ≡ ok a)
      × (t.calls ≡ r ∷ s.calls)

  run_usable-CallsOnce :
      (command : CommandRecord) (executor : Executor) (a : ApprovalRecord)
      → CallsOnce
          (HasWork command)
          (IsRequestOf command)
          (run_approved env command executor (usable a))
  unfolding run_approved
  run_usable-CallsOnce command executor a =
      CallsOnce-given _ _ (transition_command-IsSilent _ _ _) (transition_command-HasWork _ _ _)
        (transition_command-Finds _ _ _ refl)
        λ moved work. execute_authorized-CallsOnce env command moved executor work (λ r of. of)

  run_invalid-IsSilent :
      (command : CommandRecord) (executor : Executor) (message : String)
      → IsSilent (run_approved env command executor (invalid message))
  unfolding run_approved
  run_invalid-IsSilent command executor message = search (silent_rules, transition_command-IsSilent)

  failed-IsSilent :
      (command : CommandRecord) (executor : Executor) (e : Error)
      → IsSilent (failed_consume env e >>= run_approved env command executor)
  unfolding ◌>>=◌
  failed-IsSilent command executor (approval_error m) = record {
    at = λ s. (run_invalid-IsSilent command executor (env.error_text (approval_error m))).at s;
  }
  failed-IsSilent command executor _ = record { at = λ s. refl }

  result_cases :
      {A : Type 0} (p : Result A × Store)
      → ((a : A) × (t : Store) × (p ≡ (ok a, t))) ⊎ ((e : Error) × (t : Store) × (p ≡ (err e, t)))
  result_cases (ok a, t) = inl (a, t, refl)
  result_cases (err e, t) = inr (e, t, refl)

  run-calls :
      (row : CommandRecord) (executor : Executor) (id : String) (s : Store)
      → HasWork row s.tables
      → let after = (with_request env row executor (some id) s).1 in
        (after.calls ≡ s.calls) ⊎ Ran row id s after
  unfolding with_request try_consume ◌>>=◌
  run-calls row executor id s has = elim (result_cases (consume env id row s)) [
    | inl (a, t, same) ↦
        let quiet : t.calls ≡ s.calls =
          ap (λ (p : Result ApprovalRecord × Store). p.1.calls) (sym same)
          ∙ (consume-IsSilent id row).at s in
        let still : HasWork row t.tables =
          subst (λ (p : Result ApprovalRecord × Store). HasWork row p.1.tables) same
            ((consume-HasWork env id row).at s has) in
        rw same (elim ((run_usable-CallsOnce row executor a).at t still) [
          | inl none_more ↦ inl (none_more ∙ quiet)
          | inr (r, named, one) ↦ inr (r, a, named, refl, rw (← quiet) one)
        ])
    | inr (e, t, same) ↦
        let quiet : t.calls ≡ s.calls =
          ap (λ (p : Result ApprovalRecord × Store). p.1.calls) (sym same)
          ∙ (consume-IsSilent id row).at s in
        rw same (inl ((failed-IsSilent row executor e).at t ∙ quiet))
  ]

  unrequested-IsSilent :
      (row : CommandRecord) (executor : Executor) → IsSilent (with_request env row executor none)
  unfolding with_request
  unrequested-IsSilent row executor = search (silent_rules, transition_command-IsSilent)

  requested :
      (service : Option ℤ) (request : Option String) {id : String}
      → service_and_request env service request ≡ some id
      → request ≡ some id
  requested none request h = absurd (cc)
  requested (some ttl) request h = h

  -- `execute_approved` calls its executor at most once. Where it does, the table has the command, it
  -- was waiting for approval and named a request, the call is with the request of that command, and the
  -- approval service had consumed that approval for the command.
  pub execute_approved-calls :
      (journal : CommandJournal) (command_id : String) (executor : Executor) (s : Store)
      → let after = (execute_approved env journal command_id executor s).1 in
        (after.calls ≡ s.calls)
        ⊎ ((row : CommandRecord) × (id : String) × (row.id ≡ command_id)
            × (find_command command_id s.tables.commands ≡ some row)
            × (row.status ≡ approval_required)
            × (row.approval_id ≡ some id)
            × Ran row id s after)
  unfolding execute_approved require_command get_command ◌>>=◌
  execute_approved-calls journal command_id executor s =
      elim (Option-cases (find_command command_id s.tables.commands)) [
        | inl missing ↦ rw missing (inl refl)
        | inr (row, found) ↦ rw found (elim (Bool-cases (status_eq row.status approval_required)) [
          | inr other ↦ rw other (inl refl)
          | inl waiting ↦
              rw waiting
                (elim (Option-cases
                  (service_and_request env journal.approval_service row.approval_id)) [
                    | inl absent ↦ rw absent (inl ((unrequested-IsSilent row executor).at s))
                    | inr (id, given) ↦
                        rw given
                          (elim (run-calls row executor id s
                            (stored-HasWork command_id row s.tables found)) [
                              | inl quiet ↦ inl quiet
                              | inr ran ↦ inr (
                                row,
                                id,
                                find_command-id command_id s.tables.commands found,
                                refl,
                                status_eq_sound row.status approval_required waiting,
                                requested journal.approval_service row.approval_id given,
                                ran,
                              )
                            ])
                  ])
        ])
      ]
