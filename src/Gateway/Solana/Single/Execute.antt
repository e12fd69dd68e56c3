-- ===== src/Gateway/Solana/Single/Execute.antt =====
-- `authorize_and_execute` (gateway/solana_execute.py) and the requests to send that it makes.
use solana_agent.Prelude.{ℕ, String, Bool, Option, none, some, refl}
use solana_agent.Json.{Json, Fields}
use solana_agent.Gateway.Solana.{Attempt, Raised, rejection}
use solana_agent.Gateway.Solana.Keeps.{
  Keeps, Keeps-modify, Keeps-raise, Keeps-reach, Leads, Leads-keep, Leads-bind, Leads-catch,
  Keeps-Leads, keeping,
}
use solana_agent.Gateway.Solana.Library.{Library, SolanaBackend, Verifier}
use solana_agent.Gateway.Solana.Attempts.{
  Claim, update, update_started, record_submitted, mark_needs_recovery, record_definitive_rejection,
}
use solana_agent.Gateway.Solana.Validate.{Validated}
use solana_agent.Gateway.Solana.Execute.{
  execute_validated, send, submit, after_response, after_failure, execute_claimed, execute_with,
  execute_verified, authorize_and_execute, claim_of, as_text, receipt,
}
use solana_agent.Gateway.Solana.Single.{
  IsSingle, IsClaimed, IsSingle-IsQuiet, claim-IsClaimed, IsClaimed-IsSingle, IsClaimed-sent,
}
use solana_agent.Gateway.Protocol.{GatewayError}
use solana_agent.Gateway.Solana.Quiet.{IsUpdate, Keeps-read_clock, Leads-rpc_call, quiet_rules}
use solana_agent.Gateway.Solana.Quiet.Validate.{validate_execution-Keeps, require_signed-Keeps}

update-IsSingle :
    (selected : Attempt → Bool) (change : Attempt → Attempt)
    → IsUpdate change
    → Keeps IsSingle (update selected change)
update-IsSingle selected change u =
    Keeps-modify _ (λ w h. IsSingle-IsQuiet.attempts w selected change u h)

update_started-IsSingle :
    (id : String) (change : Attempt → Attempt) (e : Raised)
    → IsUpdate change
    → Keeps IsSingle (update_started id change e)
unfolding update_started
update_started-IsSingle id change e u = search (keeping, update-IsSingle)

record_submitted-IsSingle :
    (id : String) (r s : Json) (now : ℕ) → Keeps IsSingle (record_submitted id r s now)
unfolding record_submitted
record_submitted-IsSingle id r s now = update_started-IsSingle id _ _ (record {
  request = λ row. refl;
  authorization = λ row. refl;
  signature = λ row. refl;
  transaction = λ row. refl;
})

record_definitive_rejection-IsSingle :
    (id : String) (e : GatewayError) (now : ℕ)
    → Keeps IsSingle (record_definitive_rejection id e now)
unfolding record_definitive_rejection
record_definitive_rejection-IsSingle id e now = update_started-IsSingle id _ _ (record {
  request = λ row. refl;
  authorization = λ row. refl;
  signature = λ row. refl;
  transaction = λ row. refl;
})

mark_needs_recovery-IsSingle : (id : String) (now : ℕ) → Keeps IsSingle (mark_needs_recovery id now)
unfolding mark_needs_recovery
mark_needs_recovery-IsSingle id now = update-IsSingle _ _ (record {
  request = λ row. refl;
  authorization = λ row. refl;
  signature = λ row. refl;
  transaction = λ row. refl;
})

module _ (lib : Library) (b : SolanaBackend) where
  send-IsSingle : (c : Claim) → Leads (IsClaimed c) IsSingle IsSingle (send lib b c)
  unfolding send
  send-IsSingle c = Leads-rpc_call b _ _ (λ w h. IsClaimed-sent c w h)

  receipt-IsSingle :
      (j a : Json) (s t : String) (at : ℕ) (o : Option Json)
      → Keeps IsSingle (receipt lib j a s t at o)
  unfolding receipt
  receipt-IsSingle j a s t at o = search keeping depth 20

  after_response-IsSingle :
      (v : Validated) (c : Claim) (now : ℕ) (response : Fields)
      → Keeps IsSingle (after_response lib b v c now response)
  unfolding after_response
  after_response-IsSingle v c now response =
      search (quiet_rules, IsSingle-IsQuiet, receipt-IsSingle, record_submitted-IsSingle) depth 16

  after_failure-IsSingle :
      (c : Claim) (now : ℕ) (e : Raised) → Keeps IsSingle (after_failure c now e)
  unfolding after_failure
  after_failure-IsSingle c now (rejection e) =
      search (keeping, record_definitive_rejection-IsSingle)
  after_failure-IsSingle c now _ = search (keeping, mark_needs_recovery-IsSingle)

  submit-IsSingle :
      (v : Validated) (c : Claim) (now : ℕ)
      → Leads (IsClaimed c) IsSingle IsSingle (submit lib b v c now)
  unfolding submit
  submit-IsSingle v c now =
      Leads-bind _ _ (Leads-keep (λ w h. h) (IsClaimed-IsSingle c) (Keeps-reach _ _)) (λ u.
        Leads-bind _ _ (send-IsSingle c)
          (λ response. Leads-keep (λ w h. h) (λ w h. h) (after_response-IsSingle v c now response)))

  execute_claimed-IsSingle :
      (v : Validated) (c : Claim) (now : ℕ) → Keeps IsSingle (execute_claimed lib b v c now)
  unfolding execute_claimed
  execute_claimed-IsSingle v c now =
      Keeps-Leads (λ w h. h) (λ w h. h) (λ w h. h)
        (Leads-bind _ _ (claim-IsClaimed c now) (λ u.
          Leads-bind _ _ (Leads-keep (λ w h. h) (IsClaimed-IsSingle c) (Keeps-reach _ _))
            (λ u. Leads-catch _ _ (submit-IsSingle v c now) (after_failure-IsSingle c now))))

  as_text-IsSingle : (j : Json) → Keeps IsSingle (as_text j)
  unfolding as_text
  as_text-IsSingle (Json.text s) = search keeping
  as_text-IsSingle _ = search keeping

  claim_of-IsSingle : (v : Validated) → Keeps IsSingle (claim_of lib b v)
  unfolding claim_of
  claim_of-IsSingle v = search (keeping, as_text-IsSingle) depth 12

  execute_with-IsSingle :
      (verify : Verifier) (payload : Fields) → Keeps IsSingle (execute_with lib b verify payload)
  unfolding execute_with execute_validated
  execute_with-IsSingle verify payload =
      search
        (
          keeping, Keeps-read_clock, IsSingle-IsQuiet, validate_execution-Keeps,
          require_signed-Keeps, claim_of-IsSingle, execute_claimed-IsSingle,
        )
        depth 16

  execute_verified-IsSingle :
      (o : Option Verifier) (payload : Fields) → Keeps IsSingle (execute_verified lib b o payload)
  unfolding execute_verified
  execute_verified-IsSingle none payload = Keeps-raise _
  execute_verified-IsSingle (some verify) payload = execute_with-IsSingle verify payload

  pub authorize_and_execute-IsSingle :
      (payload : Fields) → Keeps IsSingle (authorize_and_execute lib b payload)
  unfolding authorize_and_execute
  authorize_and_execute-IsSingle payload =
      execute_verified-IsSingle b.authorization_verifier payload
