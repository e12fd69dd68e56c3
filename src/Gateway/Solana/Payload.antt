-- ===== src/Gateway/Solana/Payload.antt =====
-- `_validate_prepare_payload` of gateway/solana_prepare.py, in the order of its tests.
use solana_agent.Prelude.{
  ℕ, ◌+◌, ◌*◌, ◌-◌, String, Bool, true, false, ◌&&◌, ◌||◌, ◌==◌, Option, none, some, List, [], ◌∷◌,
  ltb, leb, all, length, if◌then◌else◌,
}
use solana_agent.Prelude.Int.{pos}
use solana_agent.Json.{Json, Fields, Items, nil, number, text, array, object, get}
use solana_agent.Authority.Keys.{codes}
use solana_agent.Gateway.Protocol.{keys, is_in, text_or}
use solana_agent.Gateway.Solana.{
  Method, Raised, refusal, exception, pure, raise, require, ◌>>=◌, ◌>>◌,
}
use solana_agent.Gateway.Solana.Library.{
  Library, as_object, as_string, is_amount, is_closed, is_identifier, pubkey, parse_timestamp,
  hash_json, safe_bound,
}
use solana_agent.Gateway.Solana.Validate.{same_item}

abbrev request_fields : List String
request_fields =
    "type" ∷ "protocol_version" ∷ "execution_request_id" ∷ "idempotency_key" ∷ "economic_plan"
    ∷ "economic_plan_hash" ∷ "economic_approval" ∷ []

abbrev plan_fields : List String
plan_fields =
    "protocol_version" ∷ "normalization_profile" ∷ "obligation_id" ∷ "network" ∷ "capability"
    ∷ "asset" ∷ "amount_base_units" ∷ "source" ∷ "destination" ∷ "expires_at" ∷ []

abbrev approval_fields : List String
approval_fields =
    "approval_id" ∷ "economic_plan_hash" ∷ "approved_by" ∷ "issued_at" ∷ "expires_at" ∷ []

abbrev invalid : String → Raised
invalid message = refusal "invalid_request" message

-- A text item that `_IDENTIFIER` matches.
unfoldable pub named_item : Raised → Option Json → Method String
named_item e (some (text s)) = if is_identifier s then pure s else raise e
named_item e _ = raise e

-- `not isinstance(value, int) or isinstance(value, bool) or not 0 <= value <= bound`
unfoldable pub bounded_item : ℕ → Raised → Option Json → Method ℕ
bounded_item bound e (some (number (pos n))) = if leb n bound then pure n else raise e
bounded_item bound e _ = raise e

abbrev reason_valid : Option Json → Bool
reason_valid none = true
reason_valid (some (text s)) = leb 1 (length (codes s)) && leb (length (codes s)) 256
reason_valid (some _) = false

-- `int(text)` of ASCII digits
unfoldable pub decimal_value : ℕ → List ℕ → ℕ
decimal_value n [] = n
decimal_value n (c ∷ cs) = decimal_value (n * 10 + (c - b'0')) cs

-- `int(text)` raises a `ValueError` on more digits.
abbrev int_max_str_digits : ℕ
int_max_str_digits = 4300

abbrev pub u64_max : ℕ
u64_max = 18446744073709551615

unfoldable pub amount_item : Option Json → Method ℕ
unfolding decimal_value
amount_item (some (text s)) = do
  require (is_amount s) (invalid "amount_base_units must be a canonical decimal string")
  require (leb (length (codes s)) int_max_str_digits) exception
  require (leb (decimal_value 0 (codes s)) u64_max) (invalid "amount_base_units exceeds SPL u64")
  pure (decimal_value 0 (codes s))
amount_item _ = raise (invalid "amount_base_units must be a canonical decimal string")

-- What the later steps read of the plan.
pub record Plan : Type 0 where
  pub obligation_id : String
  pub mint : String
  pub decimals : ℕ
  pub amount : ℕ
  pub source : String
  pub destination : String
  pub expires_at : ℕ

-- The same of the whole payload: `request` and `context`.
pub record PrepareInput : Type 0 where
  pub execution_request_id : String
  pub plan : Plan
  pub economic_plan_hash : String
  pub constraints : Json
  pub max_fee_lamports : ℕ
  pub allowed_programs : Json

-- `not programs`, of a list
abbrev is_filled : Items → Bool
is_filled nil = false
is_filled (Items.item _ _) = true

unfoldable pub require_array : Option Json → Method Items
require_array (some (array programs)) =
    if is_filled programs
    then pure programs
    else raise (refusal "invalid_payload" "allowed_programs must be a non-empty array")
require_array _ = raise (refusal "invalid_payload" "allowed_programs must be a non-empty array")

module _ (lib : Library) where
  unfoldable pub require_asset : Option Json → Method (String × ℕ)
  require_asset value = do
    asset ← as_object "asset" value
    require
        (is_closed ("kind" ∷ "mint" ∷ "decimals" ∷ []) asset
          && same_item "kind" asset (text "spl-token"))
        (invalid "asset is not a closed SPL token object")
    decimals ← bounded_item 18 (invalid "asset decimals are invalid") (get "decimals" asset)
    pure (text_or "" (get "mint" asset), decimals)

  unfoldable pub require_plan : ℕ → Fields → Method Plan
  require_plan now plan = do
    require
        (all (is_in (keys plan)) plan_fields
          && all (λ k. is_in plan_fields k || k == "reason") (keys plan))
        (invalid "economic plan is not closed")
    require
        (same_item "protocol_version" plan (text "1.0.0")
          && (same_item "normalization_profile" plan (text "foundry-pay-domain-v1")
              && (same_item "network" plan (text "solana:devnet")
                  && same_item "capability" plan (text "solana.spl_transfer.v1"))))
        (refusal "local_policy_block" "network or capability is not permitted")
    obligation ← named_item (invalid "obligation_id is not canonical") (get "obligation_id" plan)
    (mint, decimals) ← require_asset (get "asset" plan)
    require (reason_valid (get "reason" plan)) (invalid "reason must contain 1 to 256 characters")
    asset ← as_object "asset" (get "asset" plan)
    pubkey lib "mint" (get "mint" asset)
    pubkey lib "source" (get "source" plan)
    pubkey lib "destination" (get "destination" plan)
    amount ← amount_item (get "amount_base_units" plan)
    expires_at ← parse_timestamp lib (get "expires_at" plan)
    require (ltb now expires_at) (refusal "request_expired" "economic plan has expired")
    pure (record {
      obligation_id = obligation;
      mint = mint;
      decimals = decimals;
      amount = amount;
      source = text_or "" (get "source" plan);
      destination = text_or "" (get "destination" plan);
      expires_at = expires_at;
    })

  unfoldable pub require_approval : ℕ → String → Option Json → Method (Unit {0})
  require_approval now plan_hash value = do
    approval ← as_object "economic approval" value
    require (is_closed approval_fields approval) (invalid "economic approval is not closed")
    named_item (invalid "economic approval approval_id is not canonical")
        (get "approval_id" approval)
    named_item (invalid "economic approval approved_by is not canonical")
        (get "approved_by" approval)
    issued_at ← parse_timestamp lib (get "issued_at" approval)
    require (same_item "economic_plan_hash" approval (text plan_hash))
        (refusal "local_policy_block" "economic approval is not bound to the plan")
    expiry_text ← as_string "approval expires_at" (get "expires_at" approval)
    expiry ← parse_timestamp lib (some (text expiry_text))
    require (leb issued_at now && ltb issued_at expiry)
        (invalid "economic approval time bounds are invalid")
    require (ltb now expiry) (refusal "approval_expired" "economic approval has expired")

  unfoldable pub require_programs : Items → Method (Unit {0})
  require_programs nil = pure tt
  require_programs (Items.item program programs) = do
    pubkey lib "allowed program" (some program)
    require_programs programs

  unfoldable pub require_constraints : Fields → Method (Json × ℕ × Json)
  require_constraints context = do
    require (is_closed ("constraints" ∷ []) context)
        (refusal "invalid_payload" "preparation_context is not closed")
    constraints ← as_object "constraints" (get "constraints" context)
    require (is_closed ("max_fee_lamports" ∷ "allowed_programs" ∷ []) constraints)
        (refusal "invalid_payload" "constraints are not closed")
    max_fee ←
        bounded_item safe_bound (refusal "invalid_payload" "max_fee_lamports is invalid")
          (get "max_fee_lamports" constraints)
    programs ← require_array (get "allowed_programs" constraints)
    require_programs programs
    pure (object constraints, max_fee, array programs)

  unfoldable pub validate_prepare_payload : ℕ → Fields → Method PrepareInput
  validate_prepare_payload now payload = do
    require (is_closed ("request" ∷ "preparation_context" ∷ []) payload)
        (refusal "invalid_payload" "prepare requires request and preparation_context")
    request ← as_object "request" (get "request" payload)
    context ← as_object "preparation_context" (get "preparation_context" payload)
    require (is_closed request_fields request) (invalid "external execution request is not closed")
    require
        (same_item "type" request (text "external_execution_request")
          && same_item "protocol_version" request (text "1.0.0"))
        (invalid "unsupported external execution request")
    id ←
        named_item (invalid "execution_request_id is not canonical")
          (get "execution_request_id" request)
    named_item (invalid "idempotency_key is not canonical") (get "idempotency_key" request)
    plan_dict ← as_object "economic_plan" (get "economic_plan" request)
    plan ← require_plan now plan_dict
    plan_hash ← hash_json lib (object plan_dict)
    require (same_item "economic_plan_hash" request (text plan_hash))
        (refusal "economic_plan_hash_mismatch" "economic plan hash does not match")
    require_approval now plan_hash (get "economic_approval" request)
    (constraints, max_fee, programs) ← require_constraints context
    pure (record {
      execution_request_id = id;
      plan = plan;
      economic_plan_hash = plan_hash;
      constraints = constraints;
      max_fee_lamports = max_fee;
      allowed_programs = programs;
    })
