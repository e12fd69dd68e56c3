-- ===== src/Tests/Solana.antt =====
-- The theorems on the Solana backend, with one prepared transfer and a library of fixed answers.
use solana_agent.Prelude.{
  ℕ, String, true, ◌≡◌, refl, ◌⊎◌, none, some, [], ◌∷◌, ◌++◌, ◌==◌, ◌<◌, All, length, if◌then◌else◌,
}
use solana_agent.Prelude.Int.{pos}
use solana_agent.Json.{
  Json, Fields, text, number, boolean, dict, fields, array_of, get_key, get, json_eq,
}
use solana_agent.Authority.Keys.{codes}
use solana_agent.Gateway.Protocol.{text_or}
use solana_agent.Gateway.Solana.{
  World, Preparation, Attempt, failed, prepared, before_send_transaction, ok, ◌>>=◌,
}
use solana_agent.Gateway.Solana.Library.{
  is_closed, as_object, is_identifier, pubkey, is_amount, parse_timestamp, hash_json, as_string,
  Library, SolanaBackend, Bytes, Transport, responded,
}
use solana_agent.Gateway.Solana.Payload.{
  named_item, require_plan, require_asset, bounded_item, amount_item, require_approval,
  require_array, require_constraints, require_programs, PrepareInput, validate_prepare_payload,
}
use solana_agent.Gateway.Solana.Prepare.{prepare, transfer_data}
use solana_agent.Gateway.Solana.Execute.{authorize_and_execute}
use solana_agent.Gateway.Solana.Refresh.{
  status, recover, evidence, Recovery, recover_attempt, refresh_attempt, recover_refreshed,
}
use solana_agent.Gateway.Solana.Recovered.{recover_attempt-failed}
use solana_agent.Gateway.Solana.Single.{AreUnique, AreBacked}
use solana_agent.Gateway.Solana.Sent.{sends}
use solana_agent.Gateway.Solana.Disjoint.{AreDisjoint}
use solana_agent.Gateway.Solana.Encoding.{number_of, transfer_data-encodes}
use solana_agent.Gateway.Solana.Cleared.Sends.{IsCleared, authorize_and_execute-sends}
use solana_agent.Gateway.Solana.Runs.{
  Runs, to_execute, to_recover, start, next, run, broadcasts-AreSingle, preparations-AreDisjoint,
  inspect-broadcasts,
}

abbrev zeros : String
zeros = "0000000000000000000000000000000000000000000000000000000000000000"

abbrev hash : String
hash = "sha256:0000000000000000000000000000000000000000000000000000000000000000"

abbrev instant : String → ℕ
instant s = if s == "issued" then 0 else if s == "soon" then 20000000 else 30000000

abbrev library : Library
library = record {
  canonical_bytes = λ v. some (1 ∷ []);
  sha256_of = λ bytes. zeros;
  b64decode = λ s. some (1 ∷ []);
  b64encode = λ bytes. "AQ==";
  is_timestamp = λ s. true;
  strptime = λ s. some (instant s);
  strftime = λ t. "now";
  pubkey_of = λ s. some (codes s);
  pubkey_text = λ key. "key";
  program_address = λ seeds program. 3 ∷ [];
  signature_of = λ s. some (2 ∷ []);
  signature_text = λ signature. "sig";
  signature_verifies = λ signature key message. true;
  message_of =
      λ bytes. some (record { num_required_signatures = 1; account_keys = codes "key" ∷ [] });
  transaction_bytes = λ message signature. message;
  compile = λ payer program instruction accounts blockhash. some (1 ∷ []);
  default_signature = [];
  int_of = λ s. some (pos 100);
  first_of_tie = λ row other. true;
}

abbrev result_of : String → Json
result_of method =
    if method == "sendTransaction"
    then text "sig"
    else if method == "getBlockHeight"
    then number (pos 5)
    else dict (("value", array_of (dict (("confirmationStatus", text "confirmed") ∷ []) ∷ [])) ∷ [])

abbrev answers : Transport
answers before payload =
    responded (fields (("result", result_of (text_or "" (get_key "method" payload))) ∷ []))

abbrev backend : SolanaBackend
backend = record {
  signer = codes "key";
  executor_id = "solana-agent";
  endpoint = "https://api.devnet.solana.com";
  transport = answers;
  authorization_verifier = some (λ payload signature. some true);
  chaos_hook = none;
}

-- A process that dies right before `sendTransaction`.
abbrev killed : SolanaBackend
killed = record backend { chaos_hook = some before_send_transaction }

abbrev prepared_json : Json
prepared_json = dict (
    ("execution_request_id", text "e1")
    ∷ ("prepared_message_base64", text "AQ==")
    ∷ ("prepared_message_hash", text hash)
    ∷ ("execution_commitment_hash", text hash)
    ∷ ("signer", text "key")
    ∷ ("expires_at", text "late")
    ∷ [])

abbrev row : Preparation
row = record {
  execution_request_id = "e1";
  obligation_id = "o1";
  economic_plan_hash = hash;
  prepared_json = prepared_json;
  evidence_json = dict [];
  last_valid_block_height = 9;
  state = prepared;
  updated_at = 0;
}

abbrev world : World
world = record { preparations = row ∷ []; attempts = []; clock = λ n. 1000000; posted = [] }

abbrev authorization : Json
authorization = dict (
    ("type", text "execution_authorization")
    ∷ ("protocol_version", text "1.0.0")
    ∷ ("authorization_id", text "a1")
    ∷ ("execution_request_id", text "e1")
    ∷ ("execution_commitment_hash", text hash)
    ∷ ("prepared_message_hash", text hash)
    ∷ ("signer", text "key")
    ∷ ("single_use", boolean true)
    ∷ ("issued_at", text "issued")
    ∷ ("expires_at", text "soon")
    ∷ ("authorization_signature", text "approved")
    ∷ [])

abbrev to_authorize : Fields
to_authorize = fields (
    ("execution_request_id", text "e1")
    ∷ ("prepared_message_base64", text "AQ==")
    ∷ ("execution_authorization", authorization)
    ∷ ("message_signature", dict (("signer", text "key") ∷ ("signature", text "sig") ∷ []))
    ∷ [])

abbrev to_inspect : Fields
to_inspect = fields (("execution_request_id", text "e1") ∷ [])

-- The execution is authorized and sent, authorized again by a process that would die before it sends,
-- and recovered.
abbrev after_send : World
after_send = run library backend (to_execute to_authorize) world

abbrev after_all : World
after_all =
    run library backend (to_recover to_inspect)
      (run library killed (to_execute to_authorize) after_send)

all-Runs : Runs library world after_all
all-Runs =
    next (next (next start backend (to_execute to_authorize)) killed (to_execute to_authorize))
      backend (to_recover to_inspect)

broadcasts-AreSingle_example :
    AreUnique after_all.attempts × AreBacked (sends after_all.posted) after_all.attempts
broadcasts-AreSingle_example = broadcasts-AreSingle library tt refl all-Runs

preparations-AreDisjoint_example : AreDisjoint after_all.preparations
preparations-AreDisjoint_example = preparations-AreDisjoint library (refl, tt) all-Runs

inspect-broadcasts_example :
    (sends (prepare library backend to_inspect world).1.posted ≡ [])
    × (sends (status library backend to_inspect world).1.posted ≡ [])
    × (sends (recover library backend to_inspect world).1.posted ≡ [])
    × (sends (evidence library backend to_inspect world).1.posted ≡ [])
inspect-broadcasts_example = inspect-broadcasts library backend to_inspect world

authorize_and_execute-sends_example :
    let after = (authorize_and_execute library backend to_authorize world).1 in
    (sends after.posted ≡ [])
    ⊎ ((request : Json) × IsCleared library backend to_authorize (row ∷ []) request
        × (sends after.posted ≡ request ∷ []))
authorize_and_execute-sends_example = authorize_and_execute-sends library backend to_authorize world

abbrev plan : Json
plan = dict (
    ("protocol_version", text "1.0.0")
    ∷ ("normalization_profile", text "foundry-pay-domain-v1")
    ∷ ("obligation_id", text "o2")
    ∷ ("network", text "solana:devnet")
    ∷ ("capability", text "solana.spl_transfer.v1")
    ∷ (
      "asset",
      dict (("kind", text "spl-token") ∷ ("mint", text "key") ∷ ("decimals", number (pos 6)) ∷ []),
    )
    ∷ ("amount_base_units", text "300")
    ∷ ("source", text "key")
    ∷ ("destination", text "key")
    ∷ ("expires_at", text "late")
    ∷ [])

abbrev constraints : Json
constraints = dict (
    ("max_fee_lamports", number (pos 5000)) ∷ ("allowed_programs", array_of (text "key" ∷ [])) ∷ [])

abbrev to_transfer : Fields
to_transfer = fields (
    (
      "request",
      dict (
          ("type", text "external_execution_request")
          ∷ ("protocol_version", text "1.0.0")
          ∷ ("execution_request_id", text "e2")
          ∷ ("idempotency_key", text "k2")
          ∷ ("economic_plan", plan)
          ∷ ("economic_plan_hash", text hash)
          ∷ (
            "economic_approval",
            dict (
                ("approval_id", text "p2")
                ∷ ("economic_plan_hash", text hash)
                ∷ ("approved_by", text "operator")
                ∷ ("issued_at", text "issued")
                ∷ ("expires_at", text "soon")
                ∷ []),
          )
          ∷ []),
    )
    ∷ ("preparation_context", dict (("constraints", constraints) ∷ []))
    ∷ [])

abbrev input : PrepareInput
input = record {
  execution_request_id = "e2";
  plan = record {
    obligation_id = "o2";
    mint = "key";
    decimals = 6;
    amount = 300;
    source = "key";
    destination = "key";
    expires_at = 30000000;
  };
  economic_plan_hash = hash;
  constraints = constraints;
  max_fee_lamports = 5000;
  allowed_programs = array_of (text "key" ∷ []);
}

validated : (validate_prepare_payload library 1000000 to_transfer world).0 ≡ ok input
unfolding validate_prepare_payload ◌>>=◌ is_closed as_object get json_eq named_item is_identifier
    require_plan require_asset bounded_item pubkey amount_item is_amount parse_timestamp hash_json
    require_approval as_string require_array require_constraints require_programs
validated = refl

transfer_data-encodes_example :
    (amount : Bytes) × (transfer_data 300 6 ≡ 12 ∷ amount ++ 6 ∷ [])
    × (length amount ≡ 8)
    × All (λ b. b < 256) amount
    × (number_of amount ≡ 300)
    × (6 < 256)
transfer_data-encodes_example =
    transfer_data-encodes library 1000000 to_transfer world input validated

-- An attempt that the RPC rejected.
abbrev rejected : Attempt
rejected = record {
  execution_request_id = "e1";
  authorization_id = "a1";
  prepared_message_hash = text hash;
  execution_commitment_hash = text hash;
  signer = "key";
  signature = "sig";
  signed_transaction_base64 = "AQ==";
  authorization_json = authorization;
  state = failed;
  signature_persisted_at = 0;
  submitted_at = none;
  confirmed_at = none;
  rpc_submission_json = none;
  status_observation_json = none;
  receipt_json = none;
  broadcast_count = 1;
  updated_at = 0;
}

abbrev recovered : Recovery
recovered = record { outcome = "recovered_failed"; state = failed; may_rematerialize = true }

recovers : (recover_attempt library backend row rejected world).0 ≡ ok (rejected, recovered)
unfolding recover_attempt refresh_attempt recover_refreshed ◌>>=◌
recovers = refl

recover_attempt-failed_example :
    (rejected.state ≡ failed)
    × (recovered.state ≡ failed)
    × (recovered.outcome ≡ "recovered_failed")
recover_attempt-failed_example =
    recover_attempt-failed library backend row rejected rejected recovered world recovers refl
