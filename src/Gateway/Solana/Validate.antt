-- ===== src/Gateway/Solana/Validate.antt =====
-- `_validate_execution` of gateway/solana_execute.py, in the parts that the code's comments and blank
-- lines separate: the row, the message, the authorization and the message signature.
use solana_agent.Prelude.{
  ℕ, String, Bool, true, false, not, ◌&&◌, ◌==◌, Option, some, List, [], ◌∷◌, ltb, leb,
  if◌then◌else◌,
}
use solana_agent.Json.{Json, Fields, text, boolean, object, end, field, get, get_key, json_eq}
use solana_agent.Gateway.Protocol.{or_null, is_text, text_or}
use solana_agent.Gateway.Solana.{
  Preparation, Method, Raised, refusal, exception, pure, raise, or_raise, require, read_clock,
  whole, ◌>>=◌, ◌>>◌,
}
use solana_agent.Gateway.Solana.Library.{
  Library, SolanaBackend, Bytes, Verifier, identifier, digest, is_closed, closed_object,
  parse_timestamp, hash_bytes, decode_canonical_base64,
}
use solana_agent.Gateway.Solana.Rpc.{block_height}
use solana_agent.Gateway.Solana.Preparations.{get_preparation, expire, is_expired}

abbrev execution_fields : List String
execution_fields =
    "execution_request_id" ∷ "prepared_message_base64" ∷ "execution_authorization"
    ∷ "message_signature" ∷ []

abbrev authorization_fields : List String
authorization_fields =
    "type" ∷ "protocol_version" ∷ "authorization_id" ∷ "execution_request_id"
    ∷ "execution_commitment_hash" ∷ "prepared_message_hash" ∷ "signer" ∷ "single_use" ∷ "issued_at"
    ∷ "expires_at" ∷ "authorization_signature" ∷ []

abbrev signature_fields : List String
signature_fields = "signer" ∷ "signature" ∷ []

-- A `==` of two items. An item of the row is read (`item`) before the test; `prepare` writes them all.
abbrev pub same_item : String → Fields → Json → Bool
same_item key fs v = json_eq (or_null (get key fs)) v

abbrev pub item : String → Json → Method Json
item key v = or_raise (get_key key v) exception

-- `{key: value for key, value in authorization.items() if key != "authorization_signature"}`
unfoldable pub unsigned : Fields → Fields
unsigned end = end
unsigned (field k v rest) =
    if k == "authorization_signature" then unsigned rest else field k v (unsigned rest)

abbrev pub not_verified : Raised
not_verified = refusal "authorization_invalid" "authorization signature verification failed"

abbrev pub is_true : Option Bool → Bool
is_true (some true) = true
is_true _ = false

abbrev is_true_value : Option Json → Bool
is_true_value (some (boolean true)) = true
is_true_value _ = false

abbrev expired_error : String → Raised
expired_error message = refusal "prepared_execution_expired" message

-- What `_validate_execution` returns, with the authorization's identifier taken out of it.
pub record Validated : Type 0 where
  pub row_json : Json
  pub authorization : Fields
  pub authorization_id : String
  pub message : Bytes
  pub signature : Bytes

module _ (lib : Library) (backend : SolanaBackend) where
  -- A row that is prepared and, now, past neither its time nor its block height.
  unfoldable pub require_active : Preparation → Method ℕ
  require_active row = do
    require (not (is_expired row.state))
        (refusal "execution_not_prepared" "only an active prepared execution can be authorized")
    clock ← read_clock
    let now = whole clock
    expires_at ← item "expires_at" row.prepared_json
    limit ← parse_timestamp lib (some expires_at)
    if leb limit now
        then (do
          expire row.execution_request_id
          raise (expired_error "prepared execution has expired"))
        else (do
          height ← block_height backend
          if ltb row.last_valid_block_height height
              then (do
                expire row.execution_request_id
                raise (expired_error "prepared blockhash has expired"))
              else pure now)

  unfoldable pub require_message : Fields → Json → Method Bytes
  require_message payload row_json = do
    persisted ← item "prepared_message_base64" row_json
    require
        (is_text (get "prepared_message_base64" payload)
          && same_item "prepared_message_base64" payload persisted)
        (refusal "prepared_message_mismatch"
          "supplied prepared message differs from the persisted preparation")
    message ← decode_canonical_base64 lib (text_or "" (get "prepared_message_base64" payload))
    hash ← item "prepared_message_hash" row_json
    require (json_eq (text (hash_bytes lib message)) hash) (
        refusal "prepared_message_hash_mismatch"
          "exact prepared message hash does not match persisted preparation")
    pure message

  -- The bindings of an authorization to the row, and its two times.
  unfoldable pub require_bound : Fields → String → Json → Method (Unit {0})
  require_bound authorization id row_json = do
    commitment ← item "execution_commitment_hash" row_json
    hash ← item "prepared_message_hash" row_json
    signer ← item "signer" row_json
    require
        (same_item "execution_request_id" authorization (text id)
          && (same_item "execution_commitment_hash" authorization commitment
              && (same_item "prepared_message_hash" authorization hash
                  && same_item "signer" authorization signer)))
        (refusal "authorization_binding_mismatch"
          "authorization is not bound to the persisted prepared execution")

  unfoldable pub require_timely : Fields → Json → ℕ → Method (Unit {0})
  require_timely authorization row_json now = do
    issued_at ← parse_timestamp lib (get "issued_at" authorization)
    expiry ← parse_timestamp lib (get "expires_at" authorization)
    require (leb issued_at now && ltb issued_at expiry)
        (refusal "authorization_invalid" "authorization time bounds are invalid")
    require (ltb now expiry) (refusal "authorization_expired" "execution authorization has expired")
    row_expires_at ← item "expires_at" row_json
    limit ← parse_timestamp lib (some row_expires_at)
    require (leb expiry limit)
        (refusal "authorization_invalid" "execution authorization outlives the prepared execution")

  -- `self.authorization_verifier.verify(…)` is true of the canonical bytes without the signature.
  unfoldable pub require_authentic : Verifier → Fields → Method (Unit {0})
  unfolding unsigned
  require_authentic verify authorization = do
    let signature = get "authorization_signature" authorization
    require (is_text signature && not (text_or "" signature == ""))
        (refusal "authorization_invalid" "authorization signature is missing")
    bytes ← or_raise (lib.canonical_bytes (object (unsigned authorization))) not_verified
    require (is_true (verify bytes (text_or "" signature))) not_verified

  unfoldable pub require_authorization :
      Verifier → Option Json → String → Json → ℕ → Method (Fields × String)
  require_authorization verify value id row_json now = do
    authorization ← closed_object authorization_fields "execution_authorization" value
    require
        (same_item "type" authorization (text "execution_authorization")
          && (same_item "protocol_version" authorization (text "1.0.0")
              && is_true_value (get "single_use" authorization)))
        (refusal "authorization_invalid" "unsupported execution authorization")
    authorization_id ← identifier "authorization_id" (get "authorization_id" authorization)
    digest "execution_commitment_hash" (get "execution_commitment_hash" authorization)
    digest "prepared_message_hash" (get "prepared_message_hash" authorization)
    require_bound authorization id row_json
    require_timely authorization row_json now
    require_authentic verify authorization
    pure (authorization, authorization_id)

  unfoldable pub require_signature : Option Json → Json → Method Bytes
  require_signature value row_json = do
    message_signature ← closed_object signature_fields "message_signature" value
    signer ← item "signer" row_json
    require (same_item "signer" message_signature signer) (
        refusal "message_signature_invalid"
          "message signature signer does not match the preparation")
    let signature_text = get "signature" message_signature
    require (is_text signature_text)
        (refusal "message_signature_invalid" "signature must be base58")
    signature ←
        or_raise (lib.signature_of (text_or "" signature_text))
          (refusal "message_signature_invalid" "signature must be canonical base58")
    require (lib.signature_text signature == text_or "" signature_text)
        (refusal "message_signature_invalid" "signature must use canonical base58")
    pure signature

  unfoldable pub validate_execution : Verifier → Fields → Method Validated
  validate_execution verify payload = do
    require (is_closed execution_fields payload)
        (refusal "invalid_payload" "authorize-and-execute payload is not closed")
    id ← identifier "execution_request_id" (get "execution_request_id" payload)
    found ← get_preparation id
    row ← or_raise found (refusal "execution_not_found" "prepared execution was not found")
    now ← require_active row
    message ← require_message payload row.prepared_json
    (authorization, authorization_id) ←
        require_authorization verify (get "execution_authorization" payload) id row.prepared_json
          now
    signature ← require_signature (get "message_signature" payload) row.prepared_json
    pure (record {
      row_json = row.prepared_json;
      authorization = authorization;
      authorization_id = authorization_id;
      message = message;
      signature = signature;
    })
