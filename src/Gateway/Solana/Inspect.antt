-- ===== src/Gateway/Solana/Inspect.antt =====
-- `status`, `recover` and `evidence` of `SolanaPreparationBackend` (gateway/solana_prepare.py).
use solana_agent.Prelude.{
  ℕ, String, Bool, true, false, Option, some, [], ◌∷◌, ltb, leb, if◌then◌else◌,
}
use solana_agent.Json.{Json, Fields, text, boolean, dict, get, get_key, json_eq}
use solana_agent.Gateway.Protocol.{or_null}
use solana_agent.Gateway.Solana.{
  Preparation, PreparationState, prepared, expired, Method, refusal, exception, pure, raise,
  or_raise, require, read_clock, whole, ◌>>=◌, ◌>>◌,
}
use solana_agent.Gateway.Solana.Library.{
  Library, SolanaBackend, is_closed, is_identifier, parse_timestamp,
}
use solana_agent.Gateway.Solana.Rpc.{block_height}
use solana_agent.Gateway.Solana.Preparations.{get_preparation, expire, is_expired}

-- `_now_text(self._now())`
abbrev pub now_text : Library → ℕ → Json
now_text lib now = text (lib.strftime (whole now))

abbrev pub preparation_state : PreparationState → String
preparation_state prepared = "prepared"
preparation_state expired = "expired"

unfoldable pub canonical_request_id : Option Json → Method String
canonical_request_id (some (text s)) =
    if is_identifier s
    then pure s
    else raise (refusal "invalid_payload" "execution_request_id is not canonical")
canonical_request_id _ = raise (refusal "invalid_payload" "execution_request_id is not canonical")

unfoldable pub required_row : Fields → Method Preparation
required_row payload = do
  require (is_closed ("execution_request_id" ∷ []) payload)
      (refusal "invalid_payload" "command requires only execution_request_id")
  request_id ← canonical_request_id (get "execution_request_id" payload)
  row ← get_preparation request_id
  or_raise row (refusal "execution_not_found" "prepared execution was not found")

module _ (lib : Library) (backend : SolanaBackend) where
  -- `expired_by_time or expired_by_height` of a row that is prepared
  unfoldable pub has_expired : Preparation → Method Bool
  has_expired row = do
    now ← read_clock
    expires_at ← or_raise (get_key "expires_at" row.prepared_json) exception
    limit ← parse_timestamp lib (some expires_at)
    if leb limit now
        then pure true
        else (do height ← block_height backend; pure (ltb row.last_valid_block_height height))

  unfoldable pub refreshed_state : Preparation → Method PreparationState
  refreshed_state row = do
    over ← if is_expired row.state then pure false else has_expired row
    if over then (do expire row.execution_request_id; pure expired) else pure row.state

  unfoldable pub prepare_status : Fields → Method Json
  prepare_status payload = do
    row ← required_row payload
    state ← refreshed_state row
    now ← read_clock
    pure (
        dict (
          ("type", text "external_execution_status")
          ∷ ("protocol_version", text "1.0.0")
          ∷ ("execution_request_id", text row.execution_request_id)
          ∷ ("state", text (preparation_state state))
          ∷ ("updated_at", now_text lib now)
          ∷ []))

  unfoldable pub prepare_recover : Fields → Method Json
  prepare_recover payload = do
    row ← required_row payload
    status ← prepare_status payload
    now ← read_clock
    pure (
        dict (
          ("type", text "recovery_result")
          ∷ ("protocol_version", text "1.0.0")
          ∷ ("execution_request_id", text row.execution_request_id)
          ∷ ("outcome", text "failed_before_broadcast")
          ∷ (
            "may_rematerialize",
            boolean (json_eq (or_null (get_key "state" status)) (text "expired")),
          )
          ∷ ("observed_at", now_text lib now)
          ∷ []))

  unfoldable pub prepare_evidence : Fields → Method Json
  prepare_evidence payload = do
    row ← required_row payload
    now ← read_clock
    pure (
        dict (
          ("type", text "preparation_evidence")
          ∷ ("protocol_version", text "1.0.0")
          ∷ ("execution_request_id", text row.execution_request_id)
          ∷ ("prepared_execution", row.prepared_json)
          ∷ ("evidence", row.evidence_json)
          ∷ ("observed_at", now_text lib now)
          ∷ []))
