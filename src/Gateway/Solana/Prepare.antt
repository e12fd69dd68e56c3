-- ===== src/Gateway/Solana/Prepare.antt =====
-- `prepare` of gateway/solana_prepare.py.
use solana_agent.Prelude.{
  ℕ, zero, suc, ◌+◌, ◌/◌, ◌%◌, ◌++◌, String, true, false, not, ◌==◌, Option, none, some, [], ◌∷◌,
  leb, if◌then◌else◌,
}
use solana_agent.Prelude.Int.{pos}
use solana_agent.Json.{Json, Fields, null, boolean, number, text, dict, array_of, get, json_eq}
use solana_agent.Gateway.Solana.{
  Method, exception, pure, raise, or_raise, require, read_clock, whole, ◌>>=◌, ◌>>◌,
}
use solana_agent.Gateway.Solana.Library.{
  Library, SolanaBackend, Bytes, bytes_eq, as_object, as_string, safe_int, hash_bytes, hash_json,
  pubkey,
}
use solana_agent.Gateway.Solana.Rpc.{rpc_call, confirmed_commitment}
use solana_agent.Gateway.Solana.Preparations.{replay_or_block, save}
use solana_agent.Gateway.Solana.Attempts.{error_with}
use solana_agent.Gateway.Solana.Payload.{PrepareInput, validate_prepare_payload}
use solana_agent.Gateway.Solana.Chain.{
  blocked, token_program, TokenAccount, ata, validate_chain_accounts, hash_rpc_observation,
  or_empty,
}

abbrev executor_version : String
executor_version = "0.3.0"

-- `struct.pack("<Q", amount)`: the bytes of a number that fits, least significant first
unfoldable pub little_endian : ℕ → ℕ → Bytes
little_endian zero n = []
little_endian (suc bytes) n = n % 256 ∷ little_endian bytes (n / 256)

-- `bytes([12]) + struct.pack("<Q", amount) + bytes([decimals])`
unfoldable pub transfer_data : ℕ → ℕ → Bytes
unfolding little_endian
transfer_data amount decimals = (12 ∷ little_endian 8 amount) ++ (decimals ∷ [])

-- The keys of the transfer.
pub record Transfer : Type 0 where
  pub mint : Bytes
  pub source : TokenAccount
  pub destination : TokenAccount

-- `getLatestBlockhash`
pub record Blockhash : Type 0 where
  pub slot : ℕ
  pub recent_blockhash : String
  pub last_valid_height : ℕ

-- What the simulation reported.
pub record Simulated : Type 0 where
  pub sim_context : Fields
  pub sim_value : Fields

-- The simulation, its fee, and the instant until which it holds.
pub record Attestation : Type 0 where
  pub simulation : Json
  pub fee_lamports : ℕ
  pub valid_until : ℕ

abbrev min_time : ℕ → ℕ → ℕ
min_time a b = if leb a b then a else b

abbrev minute : ℕ
minute = 60000000

abbrev pub simulated_error : Option Json → Method (Unit {0})
simulated_error none = pure tt
simulated_error (some null) = pure tt
simulated_error (some e) =
    raise
      (error_with "simulation_failed" "Solana transaction simulation failed" (("error", e) ∷ []))

-- `value.get(key, default)`
abbrev get_or : String → ℕ → Fields → Option Json
get_or key default fs = elim (get key fs) [ none ↦ some (number (pos default)) | some v ↦ some v ]

module _ (lib : Library) (backend : SolanaBackend) where
  -- From the replay's miss to `_validate_chain_accounts`.
  unfoldable pub transfer_of : PrepareInput → Method Transfer
  transfer_of input = do
    require (lib.pubkey_text backend.signer == input.plan.source)
        (blocked "configured signer must equal economic source")
    require (json_eq input.allowed_programs (array_of (text token_program ∷ [])))
        (blocked "allowed_programs must contain only the canonical SPL Token program")
    mint ← pubkey lib "mint" (some (text input.plan.mint))
    source_owner ← pubkey lib "source" (some (text input.plan.source))
    destination_owner ← pubkey lib "destination" (some (text input.plan.destination))
    require (not (bytes_eq source_owner destination_owner))
        (blocked "source and destination must differ")
    source_ata ← ata lib source_owner mint
    destination_ata ← ata lib destination_owner mint
    pure (record {
      mint = mint;
      source = record { address = source_ata; owner = source_owner };
      destination = record { address = destination_ata; owner = destination_owner };
    })

  unfoldable pub latest_blockhash : Method Blockhash
  latest_blockhash = do
    response ← rpc_call backend "getLatestBlockhash" (confirmed_commitment backend ∷ [])
    result ← as_object "getLatestBlockhash result" (get "result" response)
    blockhash_value ← as_object "latest blockhash value" (get "value" result)
    context ← as_object "blockhash context" (get "context" result)
    slot ← safe_int "slot" (get "slot" context)
    recent ← as_string "recent blockhash" (get "blockhash" blockhash_value)
    height ← safe_int "last valid block height" (get "lastValidBlockHeight" blockhash_value)
    pure (record { slot = slot; recent_blockhash = recent; last_valid_height = height })

  unfoldable pub message_bytes : PrepareInput → Transfer → Blockhash → Method Bytes
  unfolding transfer_data
  message_bytes input t b = do
    program ← or_raise (lib.pubkey_of token_program) exception
    or_raise
        (lib.compile backend.signer program (transfer_data input.plan.amount input.plan.decimals)
          ((t.source.address, false, true)
            ∷ (t.mint, false, false)
            ∷ (t.destination.address, false, true)
            ∷ (backend.signer, true, false)
            ∷ [])
          b.recent_blockhash)
        exception

  unfoldable pub simulate : Bytes → Transfer → Method Simulated
  simulate message t = do
    response ← rpc_call backend "simulateTransaction" (
        text (lib.b64encode (lib.transaction_bytes message lib.default_signature))
        ∷ dict (
            ("commitment", text "confirmed")
            ∷ ("encoding", text "base64")
            ∷ ("sigVerify", boolean false)
            ∷ ("replaceRecentBlockhash", boolean false)
            ∷ (
              "accounts",
              dict (
                  ("encoding", text "base64")
                  ∷ (
                    "addresses",
                    array_of (
                        text (lib.pubkey_text t.source.address)
                        ∷ text (lib.pubkey_text t.destination.address)
                        ∷ []),
                  )
                  ∷ []),
            )
            ∷ [])
        ∷ [])
    result ← as_object "simulateTransaction result" (get "result" response)
    context ← as_object "simulation context" (get "context" result)
    value ← as_object "simulation value" (get "value" result)
    simulated_error (get "err" value)
    pure (record { sim_context = context; sim_value = value })

  unfoldable pub attest : PrepareInput → String → Blockhash → Simulated → Method Attestation
  attest input genesis_hash b s = do
    clock ← read_clock
    let now = whole clock
    let valid_until = min_time input.plan.expires_at (now + minute)
    slot ← safe_int "simulation slot" (get_or "slot" b.slot s.sim_context)
    logs_hash ← hash_json lib (or_empty (get "logs" s.sim_value))
    pre_hash ← hash_rpc_observation lib (or_empty (get "preBalances" s.sim_value))
    post_hash ← hash_rpc_observation lib (or_empty (get "postBalances" s.sim_value))
    accounts_hash ← hash_rpc_observation lib (or_empty (get "accounts" s.sim_value))
    programs_hash ← hash_json lib (array_of (text token_program ∷ []))
    units ← safe_int "units consumed" (get_or "unitsConsumed" 0 s.sim_value)
    fee ← safe_int "fee" (get_or "fee" 0 s.sim_value)
    require (leb fee input.max_fee_lamports) (blocked "simulated fee exceeds max_fee_lamports")
    pure (record {
      simulation = dict (
          ("rpc_provider_id", text "solana-devnet-public")
          ∷ ("genesis_hash", text genesis_hash)
          ∷ ("slot", number (pos slot))
          ∷ ("commitment_level", text "confirmed")
          ∷ ("recent_blockhash", text b.recent_blockhash)
          ∷ ("last_valid_block_height", number (pos b.last_valid_height))
          ∷ ("simulated_at", text (lib.strftime now))
          ∷ ("valid_until", text (lib.strftime valid_until))
          ∷ ("logs_hash", text logs_hash)
          ∷ ("pre_balances_hash", text pre_hash)
          ∷ ("post_balances_hash", text post_hash)
          ∷ ("accounts_observed_hash", text accounts_hash)
          ∷ ("programs_observed_hash", text programs_hash)
          ∷ ("units_consumed", number (pos units))
          ∷ ("fee_lamports", number (pos fee))
          ∷ ("success", boolean true)
          ∷ []);
      fee_lamports = fee;
      valid_until = valid_until;
    })

  -- The preimage of `execution_commitment_hash`.
  unfoldable pub commitment : PrepareInput → String → String → ℕ → Json
  commitment input message_hash simulation_hash valid_until = dict (
      ("protocol_version", text "1.0.0")
      ∷ ("normalization_profile", text "foundry-pay-domain-v1")
      ∷ ("execution_request_id", text input.execution_request_id)
      ∷ ("obligation_id", text input.plan.obligation_id)
      ∷ ("executor_id", text backend.executor_id)
      ∷ ("executor_version", text executor_version)
      ∷ ("economic_plan_hash", text input.economic_plan_hash)
      ∷ ("prepared_message_hash", text message_hash)
      ∷ ("simulation_attestation_hash", text simulation_hash)
      ∷ ("signer", text (lib.pubkey_text backend.signer))
      ∷ ("constraints", input.constraints)
      ∷ ("expires_at", text (lib.strftime valid_until))
      ∷ [])

  unfoldable pub prepared_execution : PrepareInput → Bytes → Attestation → Method Json
  prepared_execution input message a = do
    let message_hash = hash_bytes lib message
    simulation_hash ← hash_json lib a.simulation
    commitment_hash ← hash_json lib (commitment input message_hash simulation_hash a.valid_until)
    pure (
        dict (
          ("type", text "prepared_execution")
          ∷ ("protocol_version", text "1.0.0")
          ∷ ("execution_request_id", text input.execution_request_id)
          ∷ ("executor_id", text backend.executor_id)
          ∷ ("executor_version", text executor_version)
          ∷ ("economic_plan_hash", text input.economic_plan_hash)
          ∷ ("prepared_message_base64", text (lib.b64encode message))
          ∷ ("prepared_message_hash", text message_hash)
          ∷ ("simulation", a.simulation)
          ∷ ("simulation_attestation_hash", text simulation_hash)
          ∷ ("execution_commitment_hash", text commitment_hash)
          ∷ ("signer", text (lib.pubkey_text backend.signer))
          ∷ ("constraints", input.constraints)
          ∷ ("expires_at", text (lib.strftime a.valid_until))
          ∷ []))

  unfoldable pub preparation_evidence : Transfer → Json
  preparation_evidence t = dict (
      (
        "local_policy",
        dict (("decision", text "allow") ∷ ("rule_id", text "spl-transfer-prepare-v1") ∷ []),
      )
      ∷ ("source_token_account", text (lib.pubkey_text t.source.address))
      ∷ ("destination_token_account", text (lib.pubkey_text t.destination.address))
      ∷ ("programs", array_of (text token_program ∷ []))
      ∷ ("rpc_endpoint", text backend.endpoint)
      ∷ [])

  unfoldable pub prepare_new : PrepareInput → Method Json
  prepare_new input = do
    t ← transfer_of input
    validate_chain_accounts lib backend t.mint input.plan.decimals t.source t.destination
        input.plan.amount
    genesis ← rpc_call backend "getGenesisHash" []
    genesis_hash ← as_string "getGenesisHash result" (get "result" genesis)
    b ← latest_blockhash
    message ← message_bytes input t b
    s ← simulate message t
    a ← attest input genesis_hash b s
    prepared_json ← prepared_execution input message a
    save lib (record {
      execution_request_id = input.execution_request_id;
      obligation_id = input.plan.obligation_id;
      economic_plan_hash = input.economic_plan_hash;
      prepared_json = prepared_json;
      evidence_json = preparation_evidence t;
      last_valid_block_height = b.last_valid_height;
    })

  unfoldable pub prepare_unless : PrepareInput → Option Json → Method Json
  prepare_unless input (some replay) = pure replay
  prepare_unless input none = prepare_new input

  unfoldable pub prepare : Fields → Method Json
  unfolding prepare_unless
  prepare payload = do
    now ← read_clock
    input ← validate_prepare_payload lib now payload
    replay ←
        replay_or_block lib input.execution_request_id input.plan.obligation_id
          input.economic_plan_hash
    prepare_unless input replay
