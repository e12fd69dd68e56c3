-- ===== src/Gateway/Solana/Refresh.antt =====
-- `status`, `recover` and `evidence` of `SolanaExecutionBackend` (gateway/solana_execute.py).
use solana_agent.Prelude.{
  ℕ, String, Bool, true, false, ◌||◌, Option, none, some, [], ◌∷◌, ltb, if◌then◌else◌,
}
use solana_agent.Prelude.Int.{pos}
use solana_agent.Json.{
  Json, Fields, Items, nil, null, boolean, number, text, array, object, dict, array_of, get,
  get_key, json_eq,
}
use solana_agent.Gateway.Protocol.{or_null, has_hash}
use solana_agent.Gateway.Solana.{
  Preparation, Attempt, AttemptState, submitted, needs_recovery, failed, confirmed, Method, refusal,
  exception, pure, or_raise, require, read_clock, ◌>>=◌, ◌>>◌,
}
use solana_agent.Gateway.Solana.Library.{Library, SolanaBackend, as_object}
use solana_agent.Gateway.Solana.Rpc.{rpc_call, block_height}
use solana_agent.Gateway.Solana.Attempts.{
  attempt_state, is_submitted, record_observation, get_attempt,
}
use solana_agent.Gateway.Solana.Inspect.{
  required_row, prepare_status, prepare_recover, prepare_evidence, now_text,
}
use solana_agent.Gateway.Solana.Validate.{item}
use solana_agent.Gateway.Solana.Execute.{receipt}

-- What one status of `getSignatureStatuses` says of the attempt.
pub data Seen : Type 0 where
  not_found failed_on_chain confirmed_on_chain pending : Seen

abbrev is_null : Option Json → Bool
is_null none = true
is_null (some null) = true
is_null (some _) = false

abbrev is_confirmation : Option Json → Bool
is_confirmation status =
    json_eq (or_null status) (text "confirmed") || json_eq (or_null status) (text "finalized")

-- `… in {"confirmed", "finalized"}` raises on a list or a dict, which have no hash.
abbrev status_has_hash : Json → Bool
status_has_hash (object fs) =
    if is_null (get "err" fs) then has_hash (get "confirmationStatus" fs) else true
status_has_hash _ = true

-- `None` if the value is no object and not null
unfoldable pub seen : Json → Option Seen
seen null = some not_found
seen (object fs) =
    if is_null (get "err" fs)
    then (if is_confirmation (get "confirmationStatus" fs)
        then some confirmed_on_chain
        else some pending)
    else some failed_on_chain
seen _ = none

unfoldable pub observed_state : Seen → AttemptState → AttemptState
observed_state not_found state = if is_submitted state then submitted else needs_recovery
observed_state failed_on_chain state = failed
observed_state confirmed_on_chain state = confirmed
observed_state pending state = submitted

abbrev is_conclusive : Seen → Bool
is_conclusive failed_on_chain = true
is_conclusive confirmed_on_chain = true
is_conclusive _ = false

abbrev pub is_final : AttemptState → Bool
is_final confirmed = true
is_final failed = true
is_final _ = false

-- `isinstance(values, list) and len(values) == 1`
unfoldable pub only_value : Option Json → Option Json
only_value (some (array (Items.item v nil))) = some v
only_value _ = none

-- What `recover` reports: outcome, state, and whether the caller may make the transaction again.
pub record Recovery : Type 0 where
  pub outcome : String
  pub state : AttemptState
  pub may_rematerialize : Bool

module _ (lib : Library) (backend : SolanaBackend) where
  -- `_receipt_from_attempt` where the status is conclusive
  unfoldable pub receipt_for : Preparation → Attempt → Seen → Json → Method (Option Json)
  receipt_for row attempt status observation =
      if is_conclusive status
      then (do
        now ← read_clock
        r ←
            receipt lib row.prepared_json attempt.authorization_json attempt.signature
              (attempt_state (observed_state status attempt.state)) now (some observation)
        pure (some r))
      else pure none

  unfoldable pub observe : Preparation → Attempt → Json → Seen → Method Attempt
  unfolding receipt_for
  observe row attempt value status = do
    let observation = dict (("signature", text attempt.signature) ∷ ("value", value) ∷ [])
    r ← receipt_for row attempt status observation
    now ← read_clock
    record_observation row.execution_request_id (observed_state status attempt.state) observation r
        now
    found ← get_attempt row.execution_request_id
    or_raise found exception

  unfoldable pub refresh_open : Preparation → Attempt → Method Attempt
  refresh_open row attempt = do
    response ← rpc_call backend "getSignatureStatuses" (
        array_of (text attempt.signature ∷ [])
        ∷ dict (("searchTransactionHistory", boolean true) ∷ [])
        ∷ [])
    result ← as_object "getSignatureStatuses result" (get "result" response)
    value ←
        or_raise (only_value (get "value" result))
          (refusal "invalid_rpc_response" "getSignatureStatuses must return exactly one value")
    require (status_has_hash value) exception
    status ←
        or_raise (seen value)
          (refusal "invalid_rpc_response" "signature status value must be an object or null")
    observe row attempt value status

  unfoldable pub refresh_attempt : Preparation → Attempt → Method Attempt
  unfolding refresh_open
  refresh_attempt row attempt =
      if is_final attempt.state then pure attempt else refresh_open row attempt

  unfoldable pub status_of : Fields → Preparation → Option Attempt → Method Json
  status_of payload row none = prepare_status lib backend payload
  status_of payload row (some attempt) = do
    refreshed ← refresh_attempt row attempt
    pure (
        dict (
          ("type", text "external_execution_status")
          ∷ ("protocol_version", text "1.0.0")
          ∷ ("execution_request_id", text row.execution_request_id)
          ∷ ("state", text (attempt_state refreshed.state))
          ∷ ("signature", text refreshed.signature)
          ∷ ("updated_at", text (lib.strftime refreshed.updated_at))
          ∷ []))

  unfoldable pub status : Fields → Method Json
  status payload = do
    row ← required_row payload
    attempt ← get_attempt row.execution_request_id
    status_of payload row attempt

  -- `observation is not None and observation.get("value") is not None`
  abbrev has_value : Option Json → Bool
  has_value none = false
  has_value (some observation) = if is_null (get_key "value" observation) then false else true

  abbrev expiry_observation : Attempt → ℕ → ℕ → Json
  expiry_observation refreshed height last_valid = dict (
      ("signature", text refreshed.signature)
      ∷ ("value", null)
      ∷ ("block_height", number (pos height))
      ∷ ("last_valid_block_height", number (pos last_valid))
      ∷ ("reason", text "signature_not_found_after_blockhash_expiry")
      ∷ [])

  abbrev recovery : String → AttemptState → Bool → Recovery
  recovery outcome state may_rematerialize = record {
    outcome = outcome;
    state = state;
    may_rematerialize = may_rematerialize;
  }

  unfoldable pub recover_unseen : Preparation → Attempt → Method Recovery
  recover_unseen row refreshed = do
    height ← block_height backend
    if ltb row.last_valid_block_height height
        then (do
          now ← read_clock
          record_observation row.execution_request_id needs_recovery
              (expiry_observation refreshed height row.last_valid_block_height) none now
          pure (recovery "not_found_after_expiry_needs_reconciliation" needs_recovery false))
        else pure (recovery "needs_recovery" refreshed.state false)

  unfoldable pub recover_refreshed : Preparation → Attempt → AttemptState → Method Recovery
  recover_refreshed row refreshed confirmed = pure (recovery "recovered_confirmed" confirmed false)
  recover_refreshed row refreshed failed = pure (recovery "recovered_failed" failed true)
  recover_refreshed row refreshed state =
      if has_value refreshed.status_observation_json
      then pure (recovery "submitted" state false)
      else recover_unseen row refreshed

  unfoldable pub recover_attempt : Preparation → Attempt → Method (Attempt × Recovery)
  recover_attempt row attempt = do
    refreshed ← refresh_attempt row attempt
    r ← recover_refreshed row refreshed refreshed.state
    pure (refreshed, r)

  -- `super().recover`, whose `self.status` finds no attempt either, is that of the preparation.
  unfoldable pub recover_of : Fields → Preparation → Option Attempt → Method Json
  recover_of payload row none = prepare_recover lib backend payload
  recover_of payload row (some attempt) = do
    (refreshed, r) ← recover_attempt row attempt
    now ← read_clock
    pure (
        dict (
          ("type", text "recovery_result")
          ∷ ("protocol_version", text "1.0.0")
          ∷ ("execution_request_id", text row.execution_request_id)
          ∷ ("outcome", text r.outcome)
          ∷ ("state", text (attempt_state r.state))
          ∷ ("signature", text refreshed.signature)
          ∷ ("may_rematerialize", boolean r.may_rematerialize)
          ∷ ("observed_at", now_text lib now)
          ∷ []))

  unfoldable pub recover : Fields → Method Json
  recover payload = do
    row ← required_row payload
    attempt ← get_attempt row.execution_request_id
    recover_of payload row attempt

  abbrev optional_time : Option ℕ → Json
  optional_time none = null
  optional_time (some t) = text (lib.strftime t)

  unfoldable pub public_attempt : Attempt → Json
  public_attempt attempt = dict (
      ("authorization_id", text attempt.authorization_id)
      ∷ ("prepared_message_hash", attempt.prepared_message_hash)
      ∷ ("execution_commitment_hash", attempt.execution_commitment_hash)
      ∷ ("signer", text attempt.signer)
      ∷ ("signature", text attempt.signature)
      ∷ ("signed_transaction_base64", text attempt.signed_transaction_base64)
      ∷ ("authorization", attempt.authorization_json)
      ∷ ("state", text (attempt_state attempt.state))
      ∷ ("signature_persisted_at", text (lib.strftime attempt.signature_persisted_at))
      ∷ ("broadcast_count", number (pos attempt.broadcast_count))
      ∷ ("submitted_at", optional_time attempt.submitted_at)
      ∷ ("confirmed_at", optional_time attempt.confirmed_at)
      ∷ ("rpc_submission", or_null attempt.rpc_submission_json)
      ∷ ("status_observation", or_null attempt.status_observation_json)
      ∷ ("receipt", or_null attempt.receipt_json)
      ∷ ("updated_at", text (lib.strftime attempt.updated_at))
      ∷ [])

  unfoldable pub evidence_of : Preparation → Json → Option Attempt → Method Json
  evidence_of row preparation none = pure preparation
  evidence_of row preparation (some attempt) = do
    prepared_execution ← item "prepared_execution" preparation
    preparation_evidence ← item "evidence" preparation
    now ← read_clock
    pure (
        dict (
          ("type", text "execution_evidence")
          ∷ ("protocol_version", text "1.0.0")
          ∷ ("execution_request_id", text row.execution_request_id)
          ∷ ("prepared_execution", prepared_execution)
          ∷ ("preparation_evidence", preparation_evidence)
          ∷ ("execution", public_attempt attempt)
          ∷ ("observed_at", now_text lib now)
          ∷ []))

  unfoldable pub evidence : Fields → Method Json
  evidence payload = do
    row ← required_row payload
    preparation ← prepare_evidence lib backend payload
    attempt ← get_attempt row.execution_request_id
    evidence_of row preparation attempt
