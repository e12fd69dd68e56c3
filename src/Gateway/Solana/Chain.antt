-- ===== src/Gateway/Solana/Chain.antt =====
-- `_validate_chain_accounts` and the normalization of RPC snapshots (gateway/solana_prepare.py).
use Prim.Native.String.{◌++◌}
use solana_agent.Prelude.{ℕ, String, not, ◌&&◌, Option, none, some, [], ◌∷◌, if◌then◌else◌}
use solana_agent.Prelude.Int.{pos, ltb_ℤ, int_text}
use solana_agent.Json.{
  Json, Fields, Items, nil, end, field, null, boolean, number, text, array, object, dict, get,
  json_eq, truthy,
}
use solana_agent.Gateway.Protocol.{or_null}
use solana_agent.Gateway.Solana.{
  Method, Raised, refusal, exception, pure, or_raise, require, ◌>>=◌, ◌>>◌,
}
use solana_agent.Gateway.Solana.Library.{
  Library, SolanaBackend, Bytes, as_object, as_string, item_of, hash_json,
}
use solana_agent.Gateway.Solana.Rpc.{rpc_call}
use solana_agent.Gateway.Solana.Validate.{same_item}

abbrev pub token_program : String
token_program = "TokenkegQfeZyiNwAJbNbGKPFXCWuBvf9Ss623VQ5DA"

abbrev associated_token_program : String
associated_token_program = "ATokenGPvbdGVxr1b2hvZbsiqW5xWH25efTNsLJA8knL"

abbrev pub blocked : String → Raised
blocked message = refusal "local_policy_block" message

-- `_parsed_info`
unfoldable pub parsed_info : Fields → String → Method Fields
parsed_info account label = do
  data_dict ← as_object (label ++ " data") (get "data" account)
  parsed ← as_object (label ++ " parsed data") (get "parsed" data_dict)
  as_object (label ++ " parsed info") (get "info" parsed)

unfoldable mutual
  pub normalize_rpc_observation : Json → Json
  normalize_rpc_observation null = null
  normalize_rpc_observation (boolean b) = boolean b
  normalize_rpc_observation (number n) = text (int_text n)
  normalize_rpc_observation (text s) = text s
  normalize_rpc_observation (array xs) = array (normalize_items xs)
  normalize_rpc_observation (object fs) = object (normalize_fields fs)

  pub normalize_items : Items → Items
  normalize_items nil = nil
  normalize_items (Items.item x xs) = Items.item (normalize_rpc_observation x) (normalize_items xs)

  pub normalize_fields : Fields → Fields
  normalize_fields end = end
  normalize_fields (field k v rest) = field k (normalize_rpc_observation v) (normalize_fields rest)

-- `value or []`
abbrev pub or_empty : Option Json → Json
or_empty none = array nil
or_empty (some v) = if truthy v then v else array nil

-- An account of the transfer with the owner that the plan names.
pub record TokenAccount : Type 0 where
  pub address : Bytes
  pub owner : Bytes

module _ (lib : Library) where
  unfoldable pub hash_rpc_observation : Json → Method String
  unfolding normalize_rpc_observation
  hash_rpc_observation value = hash_json lib (normalize_rpc_observation value)

  -- `_ata`
  unfoldable pub ata : Bytes → Bytes → Method Bytes
  ata owner mint = do
    token ← or_raise (lib.pubkey_of token_program) exception
    associated ← or_raise (lib.pubkey_of associated_token_program) exception
    pure (lib.program_address (owner ∷ token ∷ mint ∷ []) associated)

  module _ (backend : SolanaBackend) where
    unfoldable pub account_info : Bytes → Method Fields
    account_info key = do
      response ← rpc_call backend "getAccountInfo" (
          text (lib.pubkey_text key)
          ∷ dict (("commitment", text "confirmed") ∷ ("encoding", text "jsonParsed") ∷ [])
          ∷ [])
      result ← as_object "getAccountInfo result" (get "result" response)
      require (not (json_eq (or_null (get "value" result)) null))
          (blocked ("required account does not exist: " ++ lib.pubkey_text key))
      as_object "account info" (get "value" result)

    unfoldable pub validate_mint : Bytes → ℕ → Method (Unit {0})
    validate_mint mint decimals = do
      info ← account_info mint
      owner ← item_of "owner" info
      require (json_eq owner (text token_program))
          (blocked "mint is not owned by the SPL Token program")
      parsed ← parsed_info info "mint"
      require (same_item "decimals" parsed (number (pos decimals)))
          (blocked "declared mint decimals do not match chain state")

    unfoldable pub validate_token_account : String → TokenAccount → Bytes → Method Fields
    validate_token_account label account mint = do
      info ← account_info account.address
      owner ← item_of "owner" info
      require (json_eq owner (text token_program))
          (blocked (label ++ " token account has invalid owner program"))
      parsed ← parsed_info info (label ++ " token account")
      require
          (same_item "mint" parsed (text (lib.pubkey_text mint))
            && same_item "owner" parsed (text (lib.pubkey_text account.owner)))
          (blocked (label ++ " token account does not match the plan"))
      pure parsed

    unfoldable pub validate_balance : Fields → ℕ → Method (Unit {0})
    validate_balance parsed amount = do
      token_amount ← as_object "source token amount" (get "tokenAmount" parsed)
      balance_text ← as_string "source amount" (get "amount" token_amount)
      balance ← or_raise (lib.int_of balance_text) exception
      require (not (ltb_ℤ balance (pos amount))) (blocked "source token balance is insufficient")

    -- The loop over the source and the destination account.
    unfoldable pub validate_chain_accounts :
        Bytes → ℕ → TokenAccount → TokenAccount → ℕ → Method (Unit {0})
    validate_chain_accounts mint decimals source destination amount = do
      validate_mint mint decimals
      parsed ← validate_token_account "source" source mint
      validate_balance parsed amount
      validate_token_account "destination" destination mint
      pure tt
