-- ===== src/Gateway/Protocol.antt =====
-- The envelopes of gateway/protocol.py. A `Json` has no number that is not finite, so the test of the
-- payload by `json.dumps` always passes.
pub mod Parsed
use Prim.Native.String.{◌++◌}
use solana_agent.Prelude.{
  ℕ, String, Bool, true, false, not, ◌&&◌, ◌||◌, ◌==◌, Option, none, some, List, [], ◌∷◌, ltb, any,
  all, length, if◌then◌else◌,
}
use solana_agent.Json.{
  Json, Fields, text, boolean, object, end, field, dict, fields, array_of, texts, get_key, json_eq,
}
use solana_agent.Env.{Env}
use solana_agent.Authority.Keys.{codes}
use solana_agent.Authority.Approvals.{is_blank}

abbrev pub protocol_version : String
protocol_version = "1.0.0"

abbrev pub supported_commands : List String
supported_commands = "prepare" ∷ "authorize-and-execute" ∷ "status" ∷ "recover" ∷ "evidence" ∷ []

abbrev envelope_keys : List String
envelope_keys = "gateway_protocol_version" ∷ "gateway_request_id" ∷ "command" ∷ "payload" ∷ []

pub record GatewayError : Type 0 where
  pub code : String
  pub message : String
  pub retryable : Bool
  pub details : Fields

abbrev pub gateway_error : String → String → GatewayError
gateway_error code message = record {
  code = code;
  message = message;
  retryable = false;
  details = end;
}

abbrev details_entry : Fields → List (String × Json)
details_entry end = []
details_entry details = ("details", object details) ∷ []

pub as_dict : GatewayError → Json
as_dict e = dict (
    ("code", text e.code)
    ∷ ("message", text e.message)
    ∷ ("retryable", boolean e.retryable)
    ∷ details_entry e.details)

-- What `parse` raises: a `GatewayError`, or the `TypeError` of a command that has no hash.
pub data Fault : Type 0 where
  refused : GatewayError → Fault
  type_error : Fault

pub data Outcome {ℓ} (A : Type ℓ) : Type ℓ where
  done : A → Outcome A
  fault : Fault → Outcome A

pub record GatewayRequest : Type 0 where
  pub gateway_request_id : String
  pub command : String
  pub payload : Json

unfoldable pub keys : Fields → List String
keys end = []
keys (field k v rest) = k ∷ keys rest

abbrev pub is_in : List String → String → Bool
is_in words w = any (λ o. w == o) words

-- `sorted` of texts: by their code points.
codes_le : List ℕ → List ℕ → Bool
codes_le [] ds = true
codes_le (c ∷ cs) [] = false
codes_le (c ∷ cs) (d ∷ ds) =
    let rest = codes_le cs ds in if ltb c d then true else if ltb d c then false else rest

insert_text : String → List String → List String
unfolding codes_le
insert_text s [] = s ∷ []
insert_text s (t ∷ ts) =
    let rest = insert_text s ts in if codes_le (codes s) (codes t) then s ∷ t ∷ ts else t ∷ rest

-- `sorted(a - b)`
unfoldable pub sorted_missing : List String → List String → List String
unfolding insert_text
sorted_missing [] b = []
sorted_missing (s ∷ a) b =
    let rest = sorted_missing a b in if is_in b s then rest else insert_text s rest

abbrev field_error : Fields → GatewayError
field_error fs = record {
  code = "invalid_envelope";
  message = "request envelope has invalid fields";
  retryable = false;
  details = fields (
      ("missing", array_of (texts (sorted_missing envelope_keys (keys fs))))
      ∷ ("unexpected", array_of (texts (sorted_missing (keys fs) envelope_keys)))
      ∷ []);
}

unfoldable pub has_envelope_keys : Fields → Bool
unfolding keys
has_envelope_keys fs = all (is_in envelope_keys) (keys fs) && all (is_in (keys fs)) envelope_keys

abbrev pub text_or : String → Option Json → String
text_or default (some (text s)) = s
text_or default _ = default

-- `isinstance(value, str)`
abbrev pub is_text : Option Json → Bool
is_text (some (text s)) = true
is_text _ = false

abbrev pub is_object : Option Json → Bool
is_object (some (object fs)) = true
is_object _ = false

-- A list or a dict has no hash, so `command not in SUPPORTED_COMMANDS` raises.
abbrev pub has_hash : Option Json → Bool
has_hash (some (Json.array xs)) = false
has_hash (some (object fs)) = false
has_hash _ = true

abbrev pub or_null : Option Json → Json
or_null none = Json.null
or_null (some v) = v

abbrev pub is_version : Option Json → Bool
is_version v = json_eq (or_null v) (text protocol_version)

unfoldable pub parse_fields : Json → Outcome GatewayRequest
parse_fields value =
    let version = get_key "gateway_protocol_version" value in
    let id = get_key "gateway_request_id" value in
    let command = get_key "command" value in
    let payload = get_key "payload" value in
    if not (is_version version)
    then fault (
        refused
          (gateway_error "unsupported_protocol_version" "expected gateway_protocol_version 1.0.0"))
    else if not (is_text id) || is_blank (text_or "" id)
    then fault (
        refused (
          gateway_error "invalid_gateway_request_id"
            "gateway_request_id must be a non-empty string"))
    else if ltb 128 (length (codes (text_or "" id)))
    then fault (
        refused (
          gateway_error "invalid_gateway_request_id"
            "gateway_request_id must not exceed 128 characters"))
    else if not (has_hash command)
    then fault type_error
    else if not (is_text command && is_in supported_commands (text_or "" command))
    then fault (
        refused (
          gateway_error "unsupported_command"
            "command must be one of prepare, authorize-and-execute, status, recover, evidence"))
    else if not (is_object payload)
    then fault (refused (gateway_error "invalid_payload" "payload must be a JSON object"))
    else done (record {
      gateway_request_id = text_or "" id;
      command = text_or "" command;
      payload = or_null payload;
    })

unfoldable pub parse : Json → Outcome GatewayRequest
unfolding sorted_missing keys
parse (object fs) =
    if has_envelope_keys fs then parse_fields (object fs) else fault (refused (field_error fs))
parse other = fault (refused (gateway_error "invalid_envelope" "request must be a JSON object"))

-- `GatewayRequest.as_dict`
abbrev pub request_dict : GatewayRequest → Json
request_dict r = dict (
    ("gateway_protocol_version", text protocol_version)
    ∷ ("gateway_request_id", text r.gateway_request_id)
    ∷ ("command", text r.command)
    ∷ ("payload", r.payload)
    ∷ [])

pub request_hash : Env → GatewayRequest → String
request_hash env r = "sha256:" ++ env.sha256_hex (env.canonical_json (request_dict r))

-- `response_envelope` with a result, and with an error.
abbrev envelope : GatewayRequest → Bool → List (String × Json) → Json
envelope r ok rest = dict (
    ("gateway_protocol_version", text protocol_version)
    ∷ ("gateway_request_id", text r.gateway_request_id)
    ∷ ("command", text r.command)
    ∷ ("ok", boolean ok)
    ∷ ("replayed", boolean false)
    ∷ rest)

pub result_envelope : GatewayRequest → Json → Json
result_envelope r result = envelope r true (("result", result) ∷ [])

pub error_envelope : GatewayRequest → GatewayError → Json
unfolding as_dict
error_envelope r e = envelope r false (("error", as_dict e) ∷ [])
