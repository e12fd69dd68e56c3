-- ===== src/Gateway/Solana/Execute.antt =====
-- `authorize_and_execute` of gateway/solana_execute.py.
use solana_agent.Prelude.{ℕ, String, false, ◌==◌, Option, none, some, List, [], ◌∷◌, nat_eq}
use solana_agent.Prelude.Int.{pos}
use solana_agent.Json.{Json, Fields, text, boolean, number, dict, object, get, entry_if}
use solana_agent.Gateway.Solana.{
  Method, Raised, rejection, exception, refusal, pure, raise, or_raise, require, catch, read_clock,
  whole, reach, after_execution_validated_before_claim,
  after_signature_and_broadcast_intent_persisted, before_send_transaction,
  after_send_transaction_response_before_persist, ◌>>=◌, ◌>>◌,
}
use solana_agent.Gateway.Solana.Library.{
  Library, SolanaBackend, Bytes, bytes_eq, Verifier, as_string,
}
use solana_agent.Gateway.Solana.Rpc.{rpc_call}
use solana_agent.Gateway.Solana.Attempts.{
  Claim, claim, error_with, record_submitted, mark_needs_recovery, record_definitive_rejection,
}
use solana_agent.Gateway.Solana.Validate.{Validated, validate_execution, item}

-- `_receipt`
unfoldable pub receipt : Library → Json → Json → String → String → ℕ → Option Json → Method Json
receipt lib row_json authorization signature state observed_at observation = do
  id ← item "execution_request_id" row_json
  authorization_id ← item "authorization_id" authorization
  commitment ← item "execution_commitment_hash" row_json
  hash ← item "prepared_message_hash" row_json
  signer ← item "signer" row_json
  pure (
      dict (
        ("type", text "external_execution_receipt")
        ∷ ("protocol_version", text "1.0.0")
        ∷ ("execution_request_id", id)
        ∷ ("authorization_id", authorization_id)
        ∷ ("execution_commitment_hash", commitment)
        ∷ ("prepared_message_hash", hash)
        ∷ ("signer", signer)
        ∷ ("signature", text signature)
        ∷ ("state", text state)
        ∷ ("observed_at", text (lib.strftime (whole observed_at)))
        ∷ entry_if "chain_observation" (λ o. o) observation []))

-- A value that is bound to a TEXT parameter of a statement.
unfoldable pub as_text : Json → Method String
as_text (text s) = pure s
as_text _ = raise exception

abbrev first_key : List Bytes → Option Bytes
first_key [] = none
first_key (k ∷ ks) = some k

-- The parameters of `sendTransaction`.
abbrev pub send_params : String → List Json
send_params transaction =
    text transaction
    ∷ dict (
        ("encoding", text "base64")
        ∷ ("skipPreflight", boolean false)
        ∷ ("preflightCommitment", text "confirmed")
        ∷ ("maxRetries", number (pos 0))
        ∷ [])
    ∷ []

-- The handlers of the `try`: a conclusive rejection is recorded and raised again; anything else
-- leaves the outcome unknown.
unfoldable pub after_failure : Claim → ℕ → Raised → Method Json
after_failure c now (rejection e) = do
  record_definitive_rejection c.execution_request_id e now
  raise (rejection e)
after_failure c now _ = do
  mark_needs_recovery c.execution_request_id now
  raise (
      error_with "needs_recovery"
        "broadcast may have occurred; consult status or recover and never rebroadcast"
        (("execution_request_id", text c.execution_request_id)
          ∷ ("signature", text c.signature)
          ∷ []))

module _ (lib : Library) (backend : SolanaBackend) where
  -- The parsed message needs one signature, its fee payer is the signer, who signed these bytes.
  unfoldable pub require_signed : Bytes → Bytes → Method (Unit {0})
  require_signed message signature = do
    versioned ← or_raise (lib.message_of message) exception
    require (nat_eq versioned.num_required_signatures 1)
        (refusal "local_policy_block" "prepared message must require exactly one signature")
    payer ← or_raise (first_key versioned.account_keys) exception
    require (bytes_eq payer backend.signer)
        (refusal "local_policy_block" "prepared message fee payer does not match configured signer")
    require (lib.signature_verifies signature backend.signer message) (
        refusal "message_signature_invalid"
          "Solana signature does not verify over the exact prepared message")

  unfoldable pub claim_of : Validated → Method Claim
  claim_of v = do
    id ← item "execution_request_id" v.row_json
    request_id ← as_text id
    hash ← item "prepared_message_hash" v.row_json
    commitment ← item "execution_commitment_hash" v.row_json
    pure (record {
      execution_request_id = request_id;
      authorization_id = v.authorization_id;
      prepared_message_hash = hash;
      execution_commitment_hash = commitment;
      signer = lib.pubkey_text backend.signer;
      signature = lib.signature_text v.signature;
      signed_transaction_base64 = lib.b64encode (lib.transaction_bytes v.message v.signature);
      authorization = object v.authorization;
    })

  -- `self.rpc.call("sendTransaction", …)`
  unfoldable pub send : Claim → Method Fields
  send c = rpc_call backend "sendTransaction" (send_params c.signed_transaction_base64)

  -- The body of the `try` from the response on.
  unfoldable pub after_response : Validated → Claim → ℕ → Fields → Method Json
  after_response v c now response = do
    returned ← as_string "sendTransaction result" (get "result" response)
    require (returned == c.signature) (
        refusal "rpc_signature_mismatch"
          "RPC returned a signature different from the persisted transaction signature")
    reach backend.chaos_hook after_send_transaction_response_before_persist
    sent ← receipt lib v.row_json (object v.authorization) c.signature "submitted" now none
    record_submitted c.execution_request_id (object response) sent now
    pure sent

  unfoldable pub submit : Validated → Claim → ℕ → Method Json
  unfolding after_response
  submit v c now = do
    reach backend.chaos_hook before_send_transaction
    response ← send c
    after_response v c now response

  -- From the claim on.
  unfoldable pub execute_claimed : Validated → Claim → ℕ → Method Json
  unfolding submit after_failure
  execute_claimed v c now = do
    claim c now
    reach backend.chaos_hook after_signature_and_broadcast_intent_persisted
    catch (submit v c now) (after_failure c now)

  -- The rest, once the payload is validated.
  unfoldable pub execute_validated : Validated → Method Json
  execute_validated v = do
    clock ← read_clock
    require_signed v.message v.signature
    c ← claim_of v
    reach backend.chaos_hook after_execution_validated_before_claim
    execute_claimed v c (whole clock)

  unfoldable pub execute_with : Verifier → Fields → Method Json
  unfolding execute_validated
  execute_with verify payload = do
    v ← validate_execution lib backend verify payload
    execute_validated v

  unfoldable pub execute_verified : Option Verifier → Fields → Method Json
  execute_verified none payload = raise (
      refusal "authorization_verifier_not_configured"
        "Foundry authorization verification is required for execution")
  execute_verified (some verify) payload = execute_with verify payload

  unfoldable pub authorize_and_execute : Fields → Method Json
  authorize_and_execute payload = execute_verified backend.authorization_verifier payload
