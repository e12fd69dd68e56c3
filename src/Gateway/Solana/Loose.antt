-- ===== src/Gateway/Solana/Loose.antt =====
-- What depends on neither the attempts nor the requests to the RPC, and `authorize_and_execute`
-- (gateway/solana_execute.py).
use solana_agent.Prelude.{ℕ, String, Bool, Option, none, some, List}
use solana_agent.Json.{Json, Fields}
use solana_agent.Gateway.Solana.{World, Attempt, Raised, rejection}
use solana_agent.Gateway.Solana.Keeps.{Keeps, Keeps-modify, Keeps-raise, keeping}
use solana_agent.Gateway.Solana.Library.{Library, SolanaBackend, Verifier}
use solana_agent.Gateway.Solana.Attempts.{
  Claim, claim, claim_over, update_started, update, record_submitted, mark_needs_recovery,
  record_definitive_rejection,
}
use solana_agent.Gateway.Solana.Validate.{Validated}
use solana_agent.Gateway.Solana.Execute.{
  execute_validated, send, submit, after_response, after_failure, execute_claimed, execute_with,
  execute_verified, authorize_and_execute, claim_of, as_text, receipt,
}
use solana_agent.Gateway.Solana.Quiet.{IsQuiet, Keeps-read_clock, Keeps-rpc_call, quiet_rules}
use solana_agent.Gateway.Solana.Quiet.Validate.{validate_execution-Keeps, require_signed-Keeps}

-- `P` does not depend on the attempts, and neither on the requests to the RPC.
pub record IsUntried (P : World → Type 0) : Type 0 where
  pub attempts : (w : World) (rows : List Attempt) → P w → P (record w { attempts = rows })

pub record IsLoose (P : World → Type 0) : Type 0 where
  pub untried : IsUntried P
  pub posted : (w : World) (ps : List Json) → P w → P (record w { posted = ps })

module _ {P : World → Type 0} (untried : IsUntried P) where
  claim_over-Keeps : (c : Claim) (now : ℕ) (o : Option Attempt) → Keeps P (claim_over c now o)
  unfolding claim_over
  claim_over-Keeps c now none = Keeps-modify _ (λ w h. untried.attempts w _ h)
  claim_over-Keeps c now (some row) = Keeps-raise _

  update-Keeps :
      (selected : Attempt → Bool) (change : Attempt → Attempt) → Keeps P (update selected change)
  update-Keeps selected change = Keeps-modify _ (λ w h. untried.attempts w _ h)

  update_started-Keeps :
      (id : String) (change : Attempt → Attempt) (e : Raised) → Keeps P (update_started id change e)
  unfolding update_started
  update_started-Keeps id change e = search (keeping, update-Keeps)

  pub after_failure-Keeps : (c : Claim) (now : ℕ) (e : Raised) → Keeps P (after_failure c now e)
  unfolding after_failure record_definitive_rejection mark_needs_recovery
  after_failure-Keeps c now (rejection e) = search (keeping, update_started-Keeps)
  after_failure-Keeps c now _ = search (keeping, update-Keeps)

  as_text-Keeps : (j : Json) → Keeps P (as_text j)
  unfolding as_text
  as_text-Keeps (Json.text s) = search keeping
  as_text-Keeps _ = search keeping

module _ {P : World → Type 0} (quiet : IsQuiet P) (untried : IsUntried P) (lib : Library)
    (b : SolanaBackend) where
  pub claim-Keeps : (c : Claim) (now : ℕ) → Keeps P (claim c now)
  unfolding claim
  claim-Keeps c now = search (keeping, claim_over-Keeps)

  pub claim_of-Keeps : (v : Validated) → Keeps P (claim_of lib b v)
  unfolding claim_of
  claim_of-Keeps v = search (keeping, as_text-Keeps) depth 12

  pub after_response-Keeps :
      (v : Validated) (c : Claim) (now : ℕ) (response : Fields)
      → Keeps P (after_response lib b v c now response)
  unfolding after_response record_submitted receipt
  after_response-Keeps v c now response = search (quiet_rules, update_started-Keeps) depth 24

module _ {P : World → Type 0} (quiet : IsQuiet P) (loose : IsLoose P) (lib : Library)
    (b : SolanaBackend) where
  send-Keeps : (c : Claim) → Keeps P (send lib b c)
  unfolding send
  send-Keeps c = Keeps-rpc_call b _ _ (λ w h. loose.posted w _ h)

  execute_claimed-Keeps :
      (v : Validated) (c : Claim) (now : ℕ) → Keeps P (execute_claimed lib b v c now)
  unfolding execute_claimed submit
  execute_claimed-Keeps v c now =
      search
        (keeping, claim-Keeps, send-Keeps, after_response-Keeps, after_failure-Keeps, loose.untried)
        depth 16

  execute_verified-Keeps :
      (o : Option Verifier) (payload : Fields) → Keeps P (execute_verified lib b o payload)
  unfolding execute_verified execute_with execute_validated
  execute_verified-Keeps none payload = Keeps-raise _
  execute_verified-Keeps (some verify) payload =
      search
        (
          keeping, Keeps-read_clock, validate_execution-Keeps, require_signed-Keeps, claim_of-Keeps,
          execute_claimed-Keeps, loose.untried,
        )
        depth 24

  pub authorize_and_execute-Keeps :
      (payload : Fields) → Keeps P (authorize_and_execute lib b payload)
  unfolding authorize_and_execute
  authorize_and_execute-Keeps payload = execute_verified-Keeps b.authorization_verifier payload
