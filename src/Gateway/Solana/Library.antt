-- ===== src/Gateway/Solana/Library.antt =====
-- What gateway/solana_prepare.py and gateway/solana_execute.py take from solders, rfc8785, sqlite and
-- Python's library, the settings of a backend, and the tests of their inputs.
use Prim.Native.String.{◌++◌}
use solana_agent.Prelude.{
  ℕ, String, Bool, true, false, not, ◌&&◌, ◌||◌, ◌==◌, Option, none, some, List, [], ◌∷◌, leb,
  nat_eq, all, length, if◌then◌else◌,
}
use solana_agent.Prelude.Int.{ℤ, pos}
use solana_agent.Json.{Json, Fields, text, number, object, get}
use solana_agent.Authority.Keys.{codes}
use solana_agent.Gateway.Protocol.{keys, is_in}
use solana_agent.Gateway.Solana.{
  Raised, exception, refusal, Method, KillPoint, Preparation, pure, raise, or_raise, require, ◌>>=◌,
  ◌>>◌,
}

abbrev pub Bytes : Type 0
Bytes = List ℕ

abbrev pub bytes_eq : Bytes → Bytes → Bool
bytes_eq [] [] = true
bytes_eq (b ∷ bs) (c ∷ cs) = nat_eq b c && bytes_eq bs cs
bytes_eq _ _ = false

-- `message.header.num_required_signatures` and `message.account_keys` of a parsed message
pub record VersionedMessage : Type 0 where
  pub num_required_signatures : ℕ
  pub account_keys : List Bytes

-- What `transport.call(…)` does: it returns a dict, or raises an exception that is no `GatewayError`.
pub data TransportAnswer : Type 0 where
  responded : Fields → TransportAnswer
  failed_to_send : TransportAnswer

-- An answer can depend on the requests that the transport had before.
abbrev pub Transport : Type 0
Transport = List Json → Json → TransportAnswer

-- `verify(payload, signature)`, which may raise.
abbrev pub Verifier : Type 0
Verifier = Bytes → String → Option Bool

pub record Library : Type 0 where
  -- `rfc8785.dumps(value)`, which raises on an integer it cannot write
  pub canonical_bytes : Json → Option Bytes
  -- `hashlib.sha256(value).hexdigest()`
  pub sha256_of : Bytes → String
  -- `base64.b64decode(text, validate=True)`, which may raise, and `base64.b64encode`
  pub b64decode : String → Option Bytes
  pub b64encode : Bytes → String
  -- `_TIMESTAMP.fullmatch`, `datetime.strptime` and `strftime`: an instant in microseconds
  pub is_timestamp : String → Bool
  pub strptime : String → Option ℕ
  pub strftime : ℕ → String
  -- `Pubkey.from_string`, `str(pubkey)`, and `Pubkey.find_program_address(seeds, program)[0]`
  pub pubkey_of : String → Option Bytes
  pub pubkey_text : Bytes → String
  pub program_address : List Bytes → Bytes → Bytes
  -- `Signature.from_string`, `str(signature)`, and `signature.verify(pubkey, message)`
  pub signature_of : String → Option Bytes
  pub signature_text : Bytes → String
  pub signature_verifies : Bytes → Bytes → Bytes → Bool
  -- `from_bytes_versioned`, which may raise, and
  -- `bytes(VersionedTransaction.populate(message, [signature]))` of the message with these bytes
  pub message_of : Bytes → Option VersionedMessage
  pub transaction_bytes : Bytes → Bytes → Bytes
  -- `to_bytes_versioned(MessageV0.try_compile(payer, [Instruction(program, data, accounts)], [],
  -- Hash.from_string(blockhash)))`, which may raise; an account comes with `is_signer`, `is_writable`
  pub compile : Bytes → Bytes → Bytes → List (Bytes × Bool × Bool) → String → Option Bytes
  pub default_signature : Bytes
  -- `int(text)`, which may raise
  pub int_of : String → Option ℤ
  -- Which of two rows `ORDER BY updated_at DESC` puts first where they have one `updated_at`.
  pub first_of_tie : Preparation → Preparation → Bool

-- A backend as its constructor leaves it.
pub record SolanaBackend : Type 0 where
  pub signer : Bytes
  pub executor_id : String
  pub endpoint : String
  pub transport : Transport
  pub authorization_verifier : Option Verifier
  pub chaos_hook : Option KillPoint

-- `_IDENTIFIER.fullmatch`, `_SHA256.fullmatch` and `_AMOUNT.fullmatch`
abbrev between : ℕ → ℕ → ℕ → Bool
between low high c = leb low c && leb c high

abbrev is_digit : ℕ → Bool
is_digit = between b'0' b'9'

abbrev is_alphanumeric : ℕ → Bool
is_alphanumeric c = is_digit c || (between b'a' b'z' c || between b'A' b'Z' c)

abbrev is_identifier_char : ℕ → Bool
is_identifier_char c =
    is_alphanumeric c || (nat_eq c b'.' || (nat_eq c b'_' || (nat_eq c b':' || nat_eq c b'-')))

abbrev identifier_codes : List ℕ → Bool
identifier_codes [] = false
identifier_codes (c ∷ cs) = is_alphanumeric c && (all is_identifier_char cs && leb (length cs) 127)

unfoldable pub is_identifier : String → Bool
is_identifier s = identifier_codes (codes s)

abbrev is_hex : ℕ → Bool
is_hex c = is_digit c || between b'a' b'f' c

abbrev without : List ℕ → List ℕ → Option (List ℕ)
without [] cs = some cs
without (p ∷ ps) [] = none
without (p ∷ ps) (c ∷ cs) = if nat_eq p c then without ps cs else none

abbrev digest_codes : Option (List ℕ) → Bool
digest_codes none = false
digest_codes (some cs) = all is_hex cs && nat_eq (length cs) 64

unfoldable pub is_digest : String → Bool
is_digest s = digest_codes (without (codes "sha256:") (codes s))

abbrev amount_codes : List ℕ → Bool
amount_codes [] = false
amount_codes (c ∷ []) = is_digit c
amount_codes (c ∷ cs) = between b'1' b'9' c && all is_digit cs

unfoldable pub is_amount : String → Bool
is_amount s = amount_codes (codes s)

-- `_object`, `_string`, `_safe_int` and `_result_…` with the value that `get` gave
unfoldable pub as_object : String → Option Json → Method Fields
as_object label (some (object fs)) = pure fs
as_object label _ = raise (refusal "invalid_payload" (label ++ " must be an object"))

unfoldable pub as_string : String → Option Json → Method String
as_string label (some (text s)) =
    if s == ""
    then raise (refusal "invalid_rpc_response" (label ++ " must be a string"))
    else pure s
as_string label _ = raise (refusal "invalid_rpc_response" (label ++ " must be a string"))

abbrev pub safe_bound : ℕ
safe_bound = 9007199254740991

abbrev not_safe : String → Raised
not_safe label = refusal "invalid_rpc_response" (label ++ " must be a safe unsigned integer")

unfoldable pub safe_int : String → Option Json → Method ℕ
safe_int label (some (number (pos n))) = if leb n safe_bound then pure n else raise (not_safe label)
safe_int label _ = raise (not_safe label)

-- `value[key]`, which raises a `KeyError`
abbrev pub item_of : String → Fields → Method Json
item_of key fs = or_raise (get key fs) exception

-- `set(value) == names`
unfoldable pub is_closed : List String → Fields → Bool
unfolding keys
is_closed names fs = all (is_in names) (keys fs) && all (is_in (keys fs)) names

abbrev not_closed : String → Raised
not_closed label = refusal "invalid_payload" (label ++ " is not a closed object")

unfoldable pub closed_object : List String → String → Option Json → Method Fields
closed_object names label (some (object fs)) =
    if is_closed names fs then pure fs else raise (not_closed label)
closed_object names label _ = raise (not_closed label)

-- `_identifier` and `_digest`
abbrev not_canonical : String → Raised
not_canonical label = refusal "invalid_payload" (label ++ " is not canonical")

unfoldable pub identifier : String → Option Json → Method String
identifier label (some (text s)) = if is_identifier s then pure s else raise (not_canonical label)
identifier label _ = raise (not_canonical label)

abbrev no_digest : String → Raised
no_digest label = refusal "invalid_payload" (label ++ " is not a canonical SHA-256 digest")

unfoldable pub digest : String → Option Json → Method String
digest label (some (text s)) = if is_digest s then pure s else raise (no_digest label)
digest label _ = raise (no_digest label)

module _ (lib : Library) where
  unfoldable pub hash_bytes : Bytes → String
  hash_bytes bytes = "sha256:" ++ lib.sha256_of bytes

  -- `_hash_json`
  unfoldable pub hash_json : Json → Method String
  unfolding hash_bytes
  hash_json value = do
    bytes ← or_raise (lib.canonical_bytes value) exception
    pure (hash_bytes bytes)

  unfoldable pub parse_timestamp : Option Json → Method ℕ
  parse_timestamp (some (text s)) =
      if lib.is_timestamp s
      then or_raise (lib.strptime s)
          (refusal "invalid_request" "timestamp is not a real UTC instant")
      else raise (refusal "invalid_request" "timestamp must be UTC RFC 3339 with second precision")
  parse_timestamp _ =
      raise (refusal "invalid_request" "timestamp must be UTC RFC 3339 with second precision")

  unfoldable pub decode_canonical_base64 : String → Method Bytes
  decode_canonical_base64 value = do
    decoded ←
        or_raise (lib.b64decode value)
          (refusal "invalid_payload" "prepared message is not canonical base64")
    require (not (nat_eq (length decoded) 0) && lib.b64encode decoded == value)
        (refusal "invalid_payload" "prepared message is not canonical base64")
    pure decoded

  unfoldable pub pubkey : String → Option Json → Method Bytes
  pubkey label (some (text s)) = do
    key ←
        or_raise (lib.pubkey_of s)
          (refusal "invalid_request" (label ++ " must be a canonical Solana public key"))
    require (lib.pubkey_text key == s)
        (refusal "invalid_request" (label ++ " must use canonical base58"))
    pure key
  pubkey label _ = raise (refusal "invalid_request" (label ++ " must be a Solana public key"))

  -- `Ed25519AuthorizationVerifier(authority).verify`
  abbrev pub ed25519_verifier : Bytes → Verifier
  ed25519_verifier authority payload signature = elim (lib.signature_of signature) [
    | none ↦ some false
    | some parsed ↦ some (lib.signature_verifies parsed authority payload)
  ]
