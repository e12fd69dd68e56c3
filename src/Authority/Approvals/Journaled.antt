-- ===== src/Authority/Approvals/Journaled.antt =====
-- The approval service and the invariant of the journal.
use solana_agent.Prelude.{String, Option}
use solana_agent.Prelude.Int.{ℤ}
use solana_agent.Contracts.Authority.{PolicyDecisionRecord}
use solana_agent.Contracts.Command.{CommandRecord}
use solana_agent.Exec.Preserves.{Preserves, preserving}
use solana_agent.Env.{Env}
use solana_agent.Storage.Approvals.{require_policy_decision, require_approval}
use solana_agent.Storage.Journaled.{IsJournaled}
use solana_agent.Storage.Journaled.Operations.{
  create_approval-IsJournaled, decide_approval-IsJournaled, consume_approval-IsJournaled,
  expire_approval-IsJournaled, expire_pending_approvals-IsJournaled,
}
use solana_agent.Authority.Approvals.{request, consume_checked, consume, expire_pending}

ruleset approval_rules = (
  preserving, create_approval-IsJournaled, decide_approval-IsJournaled,
  consume_approval-IsJournaled, expire_approval-IsJournaled, expire_pending_approvals-IsJournaled,
)

module _ (env : Env) where
  pub request-IsJournaled :
      (default_ttl : ℤ) (command : CommandRecord) (decision : PolicyDecisionRecord) (ttl : Option ℤ)
      → Preserves IsJournaled (request env default_ttl command decision ttl)
  unfolding request
  request-IsJournaled default_ttl command decision ttl = search approval_rules depth 12

  pub consume-IsJournaled :
      (id : String) (command : CommandRecord) → Preserves IsJournaled (consume env id command)
  unfolding consume consume_checked require_approval require_policy_decision
  consume-IsJournaled id command = search approval_rules depth 20

pub expire_pending-IsJournaled : Preserves IsJournaled expire_pending
unfolding expire_pending
expire_pending-IsJournaled = search approval_rules
