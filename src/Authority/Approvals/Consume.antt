-- ===== src/Authority/Approvals/Consume.antt =====
-- `ApprovalService.consume` where it returns (solana_agent/authority/approvals.py).
use solana_agent.Prelude.{
  ℕ, suc, String, ◌≡◌, refl, sym, subst, ap, ◌∙◌, inl, inr, Bool, true, false, ◌&&◌, ◌==◌, some,
  arith, leb, if◌then◌else◌, Option-cases, false≢true,
}
use solana_agent.Contracts.Authority.{ApprovalRecord, PolicyDecisionRecord, consumed}
use solana_agent.Contracts.Command.{CommandRecord}
use solana_agent.Exec.{Result, ok, Store, Action, pure, ◌>>=◌}
use solana_agent.Exec.Inversion.{>>=-ok, >>=-read}
use solana_agent.Env.{Env, sha256_json}
use solana_agent.Storage.Approvals.{
  find_approval, find_decision, is_pending, is_approved, require_approval, require_policy_decision,
  expire_approval, consume_approval,
}
use solana_agent.Storage.Approvals.Changes.{
  find_approval-id, require_approval-ok, consume_approval-ok, expire_approval-ok,
}
use solana_agent.Authority.Approvals.{parse_time, same_inputs, consume_checked, consume}

module _ (env : Env) (command : CommandRecord) where
  checked-ok :
      (approval : ApprovalRecord) (decision : PolicyDecisionRecord) (now : ℕ) (s : Store)
      {a : ApprovalRecord}
      → (consume_checked env approval decision now command s).0 ≡ ok a
      → (is_approved approval.status ≡ true)
        × (leb (parse_time approval.expires_at) now ≡ false)
        × ((approval.command_id == command.id && approval.run_id == command.run_id) ≡ true)
        × (same_inputs env command decision ≡ true)
        × ((sha256_json env approval.manifest == approval.manifest_hash) ≡ true)
        × (consume_checked env approval decision now command s ≡ consume_approval approval.id s)
  unfolding consume_checked ◌>>=◌
  checked-ok approval decision now s h = ground arith

  decision-ok :
      (id : String) (s : Store) {d : PolicyDecisionRecord}
      → (require_policy_decision id s).0 ≡ ok d
      → (find_decision id s.tables.policy_decisions ≡ some d)
        × (require_policy_decision id s ≡ (ok d, s))
  unfolding require_policy_decision ◌>>=◌
  decision-ok id s h = elim (Option-cases (find_decision id s.tables.policy_decisions)) [
    | inl missing ↦ ground arith
    | inr (row, found) ↦ (ground arith, ground arith)
  ]

  abbrev usable_or_expired :
      Bool → ApprovalRecord → PolicyDecisionRecord → ℕ → Action ApprovalRecord
  usable_or_expired due row decision now = do
    current ← if due then expire_approval row.id else pure row
    consume_checked env current decision now command

  -- An approval that has just expired is not consumed.
  usable-ok :
      (due : Bool) (row : ApprovalRecord) (decision : PolicyDecisionRecord) (now : ℕ) (s : Store)
      {a : ApprovalRecord}
      → (usable_or_expired due row decision now s).0 ≡ ok a
      → usable_or_expired due row decision now s ≡ consume_checked env row decision now command s
  usable-ok false row decision now s h = unfold ◌>>=◌ in refl
  usable-ok true row decision now s h =
      let (current, e, ran) = >>=-ok (expire_approval row.id) _ s h in
      let (ready, _, _, _, _, _) =
        checked-ok current decision now (expire_approval row.id s).1
          (ap (λ (r : Result ApprovalRecord × Store). r.0) (sym ran) ∙ h) in
      absurd (false≢true (sym (expire_approval-ok row.id s e) ∙ ready))

  -- A consumption returns only for an approval that an operator approved, that has not expired by
  -- the clock's reading, that is bound to this command and run, whose decision was taken on the
  -- command's present inputs, and whose manifest has its hash; and it leaves that approval consumed.
  pub consume-ok :
      (id : String) (s : Store) {a : ApprovalRecord}
      → (consume env id command s).0 ≡ ok a
      → (row : ApprovalRecord) × (decision : PolicyDecisionRecord) × (find_approval id
            s.tables.approvals
          ≡ some row)
        × (find_decision row.policy_decision_id s.tables.policy_decisions ≡ some decision)
        × (is_approved row.status ≡ true)
        × (leb (parse_time row.expires_at) (s.clock 0) ≡ false)
        × ((row.command_id == command.id && row.run_id == command.run_id) ≡ true)
        × (same_inputs env command decision ≡ true)
        × ((sha256_json env row.manifest == row.manifest_hash) ≡ true)
        × (find_approval id (consume env id command s).1.tables.approvals ≡ some a)
        × (a.status ≡ consumed)
  unfolding consume
  consume-ok id s {a} h =
      let (row, e0, r0, h0) =
        >>=-read (require_approval id) _ s (λ b e. (require_approval-ok id s e).1) h in
      let (decision, e1, r1, h1) =
        >>=-read (require_policy_decision row.policy_decision_id) _ s
          (λ b e. (decision-ok row.policy_decision_id s e).1) h0 in
      let due = is_pending row.status && leb (parse_time row.expires_at) (s.clock 0) in
      let ticked : Store = record s { clock = λ n. s.clock (suc n) } in
      let clocked : (consume env id command s)
          ≡ usable_or_expired due row decision (s.clock 0) ticked =
        r0 ∙ (r1 ∙ (unfold ◌>>=◌ in refl)) in
      let direct =
        usable-ok due row decision (s.clock 0) ticked
          (ap (λ (r : Result ApprovalRecord × Store). r.0) (sym clocked) ∙ h) in
      let all_the_way = clocked ∙ direct in
      let (ready, fresh, bound, inputs, sealed, last) =
        checked-ok row decision (s.clock 0) ticked
          (ap (λ (r : Result ApprovalRecord × Store). r.0) (sym all_the_way) ∙ h) in
      let (_, _, _, left, spent) =
        consume_approval-ok row.id ticked
          (ap (λ (r : Result ApprovalRecord × Store). r.0) (sym (all_the_way ∙ last)) ∙ h) in
      (
        row,
        decision,
        (require_approval-ok id s e0).0,
        (decision-ok row.policy_decision_id s e1).0,
        ready,
        fresh,
        bound,
        inputs,
        sealed,
        subst
            (λ (r : Result ApprovalRecord × Store). find_approval id r.1.tables.approvals ≡ some a)
            (sym (all_the_way ∙ last))
            (subst
              (λ (j : String).
                find_approval j (consume_approval row.id ticked).1.tables.approvals ≡ some a)
              (find_approval-id id s.tables.approvals (require_approval-ok id s e0).0) left),
        spent,
      )
