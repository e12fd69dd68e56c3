-- ===== src/Gateway/Solana/Quiet/Inspect.antt =====
-- `status`, `recover` and `evidence` (gateway/solana_prepare.py, gateway/solana_execute.py) send
-- nothing.
use solana_agent.Prelude.{ℕ, String, Option, none, some, refl}
use solana_agent.Json.{Json, Fields}
use solana_agent.Gateway.Solana.{World, Preparation, Attempt, AttemptState, failed, confirmed}
use solana_agent.Gateway.Solana.Keeps.{Keeps, Keeps-modify, Keeps-raise, Keeps-pure}
use solana_agent.Gateway.Solana.Library.{Library, SolanaBackend}
use solana_agent.Gateway.Solana.Attempts.{record_observation, get_attempt}
use solana_agent.Gateway.Solana.Inspect.{
  canonical_request_id, required_row, has_expired, refreshed_state, prepare_status, prepare_recover,
  prepare_evidence,
}
use solana_agent.Gateway.Solana.Execute.{receipt}
use solana_agent.Gateway.Solana.Refresh.{
  Seen, receipt_for, observe, refresh_open, refresh_attempt, status_of, status, recover_unseen,
  recover_refreshed, recover_attempt, recover_of, recover, evidence_of, evidence,
}
use solana_agent.Gateway.Solana.Preparations.{get_preparation}
use solana_agent.Gateway.Solana.Quiet.{IsQuiet, quiet_rules}
use solana_agent.Gateway.Solana.Quiet.Validate.{expire-Keeps, block_height-Keeps}

module _ {P : World → Type 0} (quiet : IsQuiet P) where
  record_observation-Keeps :
      (id : String) (state : AttemptState) (observation : Json) (r : Option Json) (now : ℕ)
      → Keeps P (record_observation id state observation r now)
  unfolding record_observation
  record_observation-Keeps id state observation r now = Keeps-modify _ (λ w h.
      quiet.attempts w _ _
        (record {
          request = λ row. refl;
          authorization = λ row. refl;
          signature = λ row. refl;
          transaction = λ row. refl;
        })
        h)

  canonical_request_id-Keeps : (v : Option Json) → Keeps P (canonical_request_id v)
  unfolding canonical_request_id
  canonical_request_id-Keeps none = Keeps-raise _
  canonical_request_id-Keeps (some (Json.text s)) = search quiet_rules
  canonical_request_id-Keeps (some _) = Keeps-raise _

  required_row-Keeps : (payload : Fields) → Keeps P (required_row payload)
  unfolding required_row get_preparation
  required_row-Keeps payload = search (quiet_rules, canonical_request_id-Keeps)

module _ {P : World → Type 0} (quiet : IsQuiet P) (lib : Library) (b : SolanaBackend) where
  refreshed_state-Keeps : (row : Preparation) → Keeps P (refreshed_state lib b row)
  unfolding refreshed_state has_expired
  refreshed_state-Keeps row = search (quiet_rules, expire-Keeps, block_height-Keeps) depth 16

  prepare_status-Keeps : (payload : Fields) → Keeps P (prepare_status lib b payload)
  unfolding prepare_status
  prepare_status-Keeps payload = search (quiet_rules, required_row-Keeps, refreshed_state-Keeps)

  prepare_recover-Keeps : (payload : Fields) → Keeps P (prepare_recover lib b payload)
  unfolding prepare_recover
  prepare_recover-Keeps payload = search (quiet_rules, required_row-Keeps, prepare_status-Keeps)

  prepare_evidence-Keeps : (payload : Fields) → Keeps P (prepare_evidence lib b payload)
  unfolding prepare_evidence
  prepare_evidence-Keeps payload = search (quiet_rules, required_row-Keeps)

  receipt_for-Keeps :
      (row : Preparation) (attempt : Attempt) (s : Seen) (o : Json)
      → Keeps P (receipt_for lib b row attempt s o)
  unfolding receipt_for receipt
  receipt_for-Keeps row attempt s o = search quiet_rules depth 20

  refresh_attempt-Keeps :
      (row : Preparation) (attempt : Attempt) → Keeps P (refresh_attempt lib b row attempt)
  unfolding refresh_attempt refresh_open observe get_attempt
  refresh_attempt-Keeps row attempt =
      search (quiet_rules, receipt_for-Keeps, record_observation-Keeps) depth 20

  status_of-Keeps :
      (payload : Fields) (row : Preparation) (o : Option Attempt)
      → Keeps P (status_of lib b payload row o)
  unfolding status_of
  status_of-Keeps payload row none = prepare_status-Keeps payload
  status_of-Keeps payload row (some attempt) = search (quiet_rules, refresh_attempt-Keeps)

  pub status-Keeps : (payload : Fields) → Keeps P (status lib b payload)
  unfolding status get_attempt
  status-Keeps payload = search (quiet_rules, required_row-Keeps, status_of-Keeps)

  recover_unseen-Keeps :
      (row : Preparation) (attempt : Attempt) → Keeps P (recover_unseen lib b row attempt)
  unfolding recover_unseen
  recover_unseen-Keeps row attempt =
      search (quiet_rules, block_height-Keeps, record_observation-Keeps)

  recover_refreshed-Keeps :
      (row : Preparation) (attempt : Attempt) (s : AttemptState)
      → Keeps P (recover_refreshed lib b row attempt s)
  unfolding recover_refreshed
  recover_refreshed-Keeps row attempt confirmed = Keeps-pure _
  recover_refreshed-Keeps row attempt failed = Keeps-pure _
  recover_refreshed-Keeps row attempt _ = search (quiet_rules, recover_unseen-Keeps)

  recover_of-Keeps :
      (payload : Fields) (row : Preparation) (o : Option Attempt)
      → Keeps P (recover_of lib b payload row o)
  unfolding recover_of recover_attempt
  recover_of-Keeps payload row none = prepare_recover-Keeps payload
  recover_of-Keeps payload row (some attempt) =
      search (quiet_rules, refresh_attempt-Keeps, recover_refreshed-Keeps) depth 12

  pub recover-Keeps : (payload : Fields) → Keeps P (recover lib b payload)
  unfolding recover get_attempt
  recover-Keeps payload = search (quiet_rules, required_row-Keeps, recover_of-Keeps)

  evidence_of-Keeps :
      (row : Preparation) (j : Json) (o : Option Attempt) → Keeps P (evidence_of lib b row j o)
  unfolding evidence_of
  evidence_of-Keeps row j none = Keeps-pure _
  evidence_of-Keeps row j (some attempt) = search quiet_rules

  pub evidence-Keeps : (payload : Fields) → Keeps P (evidence lib b payload)
  unfolding evidence get_attempt
  evidence-Keeps payload =
      search (quiet_rules, required_row-Keeps, prepare_evidence-Keeps, evidence_of-Keeps)
