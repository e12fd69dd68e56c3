-- ===== src/Gateway/Solana/Attempts.antt =====
-- `ExecutionStore` of gateway/solana_execute.py.
use solana_agent.Prelude.{
  ℕ, ◌+◌, String, Bool, true, false, not, ◌&&◌, ◌||◌, ◌==◌, Option, none, some, List, [], ◌∷◌,
  nat_eq, if◌then◌else◌,
}
use solana_agent.Json.{Json, text, dict, fields, json_eq}
use solana_agent.Gateway.Protocol.{GatewayError, as_dict}
use solana_agent.Gateway.Solana.{
  Attempt, AttemptState, broadcast_started, submitted, needs_recovery, failed, confirmed, Method,
  Raised, gateway, refusal, raise, gets, require, modify, whole, ◌>>=◌, ◌>>◌,
}

abbrev pub attempt_state : AttemptState → String
attempt_state broadcast_started = "broadcast_started"
attempt_state submitted = "submitted"
attempt_state needs_recovery = "needs_recovery"
attempt_state failed = "failed"
attempt_state confirmed = "confirmed"

abbrev pub is_broadcast_started : AttemptState → Bool
is_broadcast_started broadcast_started = true
is_broadcast_started _ = false

-- `state in {"broadcast_started", "needs_recovery"}`, `state == "submitted"`, `state == "confirmed"`
abbrev pub is_unknown : AttemptState → Bool
is_unknown broadcast_started = true
is_unknown needs_recovery = true
is_unknown _ = false

abbrev pub is_submitted : AttemptState → Bool
is_submitted submitted = true
is_submitted _ = false

abbrev pub is_confirmed : AttemptState → Bool
is_confirmed confirmed = true
is_confirmed _ = false

-- The arguments of `claim`.
pub record Claim : Type 0 where
  pub execution_request_id : String
  pub authorization_id : String
  pub prepared_message_hash : Json
  pub execution_commitment_hash : Json
  pub signer : String
  pub signature : String
  pub signed_transaction_base64 : String
  pub authorization : Json

abbrev pub claims : String → String → Attempt → Bool
claims id authorization row =
    row.execution_request_id == id || row.authorization_id == authorization

-- `WHERE execution_request_id = ? OR authorization_id = ? LIMIT 1`. Of two such rows SQL may give
-- either; then they are different rows and the claim is a conflict with both.
unfoldable pub find_claimed : String → String → List Attempt → Option Attempt
find_claimed id authorization [] = none
find_claimed id authorization (row ∷ rows) =
    if claims id authorization row then some row else find_claimed id authorization rows

unfoldable pub same_claim : Claim → Attempt → Bool
same_claim c row =
    row.execution_request_id == c.execution_request_id
    && (row.authorization_id == c.authorization_id
        && (json_eq row.prepared_message_hash c.prepared_message_hash
            && (json_eq row.execution_commitment_hash c.execution_commitment_hash
                && row.signature == c.signature)))

abbrev pub execution_conflict : Raised
execution_conflict =
    refusal "execution_conflict" "request or authorization is bound to another execution attempt"

abbrev pub error_with : String → String → List (String × Json) → Raised
error_with code message details =
    gateway (record { code = code; message = message; retryable = false; details = fields details })

abbrev pub outcome_unknown : Attempt → Raised
outcome_unknown row =
    error_with "needs_recovery"
      "a prior broadcast outcome is unknown; automatic rebroadcast is forbidden"
      (("signature", text row.signature) ∷ [])

abbrev pub already_started : Attempt → Raised
already_started row =
    error_with "execution_already_started"
      "authorization has already been consumed by an execution attempt"
      (("state", text (attempt_state row.state)) ∷ ("signature", text row.signature) ∷ [])

abbrev pub new_attempt : Claim → ℕ → Attempt
new_attempt c at = record {
  execution_request_id = c.execution_request_id;
  authorization_id = c.authorization_id;
  prepared_message_hash = c.prepared_message_hash;
  execution_commitment_hash = c.execution_commitment_hash;
  signer = c.signer;
  signature = c.signature;
  signed_transaction_base64 = c.signed_transaction_base64;
  authorization_json = c.authorization;
  state = broadcast_started;
  signature_persisted_at = at;
  submitted_at = none;
  confirmed_at = none;
  rpc_submission_json = none;
  status_observation_json = none;
  receipt_json = none;
  broadcast_count = 1;
  updated_at = at;
}

unfoldable pub claim_refused : Claim → Attempt → Raised
claim_refused c row =
    if not (same_claim c row)
    then execution_conflict
    else if is_unknown row.state
    then outcome_unknown row
    else already_started row

unfoldable pub claim_over : Claim → ℕ → Option Attempt → Method (Unit {0})
claim_over c now (some row) = raise (claim_refused c row)
claim_over c now none = modify (λ w. record w { attempts = new_attempt c (whole now) ∷ w.attempts })

unfoldable pub claim : Claim → ℕ → Method (Unit {0})
claim c now = do
  existing ← gets (λ w. find_claimed c.execution_request_id c.authorization_id w.attempts)
  claim_over c now existing

-- `UPDATE … WHERE execution_request_id = ? AND …`, and the number of rows that it changes
abbrev updated : (Attempt → Bool) → (Attempt → Attempt) → Attempt → Attempt
updated selected change row = if selected row then change row else row

unfoldable pub update_rows : (Attempt → Bool) → (Attempt → Attempt) → List Attempt → List Attempt
update_rows selected change [] = []
update_rows selected change (row ∷ rows) =
    updated selected change row ∷ update_rows selected change rows

unfoldable pub count_rows : (Attempt → Bool) → List Attempt → ℕ
count_rows selected [] = 0
count_rows selected (row ∷ rows) = (if selected row then 1 else 0) + count_rows selected rows

abbrev pub update : (Attempt → Bool) → (Attempt → Attempt) → Method (Unit {0})
update selected change =
    modify (λ w. record w { attempts = update_rows selected change w.attempts })

abbrev pub is_attempt : String → Attempt → Bool
is_attempt id row = row.execution_request_id == id

abbrev pub is_started : String → Attempt → Bool
is_started id row = is_attempt id row && is_broadcast_started row.state

-- An update that matches another number of rows than one is rolled back.
unfoldable pub update_started : String → (Attempt → Attempt) → Raised → Method (Unit {0})
update_started id change e = do
  matched ← gets (λ w. count_rows (is_started id) w.attempts)
  require (nat_eq matched 1) e
  update (is_started id) change

unfoldable pub record_submitted : String → Json → Json → ℕ → Method (Unit {0})
record_submitted id rpc_submission receipt now =
    update_started id
      (λ row. record row {
        state = submitted;
        submitted_at = some (whole now);
        rpc_submission_json = some rpc_submission;
        receipt_json = some receipt;
        updated_at = whole now;
      })
      (refusal "needs_recovery"
        "submission response could not be attached to the durable signature")

unfoldable pub mark_needs_recovery : String → ℕ → Method (Unit {0})
mark_needs_recovery id now =
    update (is_started id) (λ row. record row { state = needs_recovery; updated_at = whole now })

unfoldable pub record_definitive_rejection : String → GatewayError → ℕ → Method (Unit {0})
record_definitive_rejection id e now =
    update_started id
      (λ row. record row {
        state = failed;
        status_observation_json =
            some (dict (("outcome", text "definitive_rejection") ∷ ("error", as_dict e) ∷ []));
        updated_at = whole now;
      })
      (refusal "needs_recovery" "definitive rejection could not be attached to the durable attempt")

-- `COALESCE(?, column)`
abbrev or_kept {ℓ} : {A : Type ℓ} → Option A → Option A → Option A
or_kept none kept = kept
or_kept (some v) kept = some v

unfoldable pub record_observation :
    String → AttemptState → Json → Option Json → ℕ → Method (Unit {0})
record_observation id state observation receipt now = update (is_attempt id) (λ row. record row {
  state = state;
  status_observation_json = some observation;
  receipt_json = or_kept receipt row.receipt_json;
  confirmed_at = or_kept (if is_confirmed state then some (whole now) else none) row.confirmed_at;
  updated_at = whole now;
})

unfoldable pub find_attempt : String → List Attempt → Option Attempt
find_attempt id [] = none
find_attempt id (row ∷ rows) = if is_attempt id row then some row else find_attempt id rows

unfoldable pub get_attempt : String → Method (Option Attempt)
get_attempt id = gets (λ w. find_attempt id w.attempts)
