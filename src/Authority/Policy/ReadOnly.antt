-- ===== src/Authority/Policy/ReadOnly.antt =====
-- What the read-only profile allows (solana_agent/authority/policy.py).
use solana_agent.Prelude.{
  String, ◌≡◌, Bool, true, false, ◌&&◌, ◌||◌, ◌==◌, List, [], ◌∷◌, any, arith, Bool-cases, inl, inr,
}
use solana_agent.Contracts.Authority.{PolicyContext, PolicyEffect}
use solana_agent.Contracts.Command.{CommandRecord}
use solana_agent.Env.{Env}
use solana_agent.Authority.Rules.{PolicyProfile, PolicyRule, read_only, default_rules, matches}
use solana_agent.Authority.Inputs.{PolicyEngine}
use solana_agent.Authority.Policy.{evaluate, first_match}
use solana_agent.Authority.Policy.Restraint.{rule_effect}
use solana_agent.Authority.Policy.Safety.{allowed_by}

abbrev allows : PolicyEffect → Bool
allows PolicyEffect.allow = true
allows _ = false

-- The inspection of the environment, reads of the workspace, every method of the RPC adapter, the test
-- of a program and of a balance, and the assembly of evidence, which writes a file and an artifact.
unfoldable pub is_listed : String → String → Bool
is_listed adapter operation =
    ("doctor" == adapter && "inspect" == operation)
    || (("filesystem" == adapter && "read" == operation)
        || ("solana_rpc" == adapter
            || (("solana" == adapter
                  && ("verify_program" == operation || "require_balance" == operation))
                || ("evidence" == adapter && "assemble" == operation))))

-- A table that allows an operation has a rule that matches and allows it.
allowing_rule :
    (rules : List PolicyRule) (profile : PolicyProfile) (adapter operation : String)
    → rule_effect rules profile adapter operation ≡ PolicyEffect.allow
    → any (λ r. allows r.effect && matches r profile adapter operation) rules ≡ true
unfolding rule_effect first_match
allowing_rule [] profile adapter operation h = absurd (cc)
allowing_rule (r ∷ rules) profile adapter operation h =
    elim (Bool-cases (matches r profile adapter operation)) [
      | inl hit ↦ ground arith
      | inr miss ↦
          ground
            (arith, allowing_rule rules profile adapter operation (rw (miss, rule_effect) at h))
    ]

listing_rules :
    (adapter operation : String)
    → any (λ r. allows r.effect && matches r read_only adapter operation) default_rules ≡ true
    → is_listed adapter operation ≡ true
unfolding default_rules matches is_listed
listing_rules adapter operation h = ground arith

-- Under the default rules the read-only profile allows no operation but these: `inspect` of doctor,
-- `read` of filesystem, every operation of solana_rpc, `verify_program` and `require_balance` of solana,
-- and `assemble` of evidence.
pub read_only_allows :
    (env : Env) (engine : PolicyEngine) (command : CommandRecord) (context : PolicyContext)
    → engine.rules ≡ default_rules
    → engine.profile ≡ read_only
    → (evaluate env engine command context).effect ≡ PolicyEffect.allow
    → is_listed command.adapter command.operation ≡ true
read_only_allows env engine command context rules profile allowed =
    listing_rules command.adapter command.operation (
      allowing_rule default_rules read_only command.adapter command.operation
        (rw (← rules) (rw (← profile) (allowed_by env engine command context allowed).1)))
