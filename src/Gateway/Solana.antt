-- ===== src/Gateway/Solana.antt =====
-- The state of the Solana backend (gateway/solana_prepare.py, gateway/solana_execute.py) and Python
-- methods over it: its two tables, the clock and the requests that the RPC received. A method
-- returns, raises, or the process dies in it (gateway/chaos.py); what it wrote before stays.
pub mod Keeps
pub mod Quiet
pub mod Sent
pub mod Single
pub mod Loose
pub mod Disjoint
pub mod Calls
pub mod Cleared
pub mod Encoding
pub mod Recovered
pub mod Runs
pub mod Library
pub mod Rpc
pub mod Preparations
pub mod Attempts
pub mod Inspect
pub mod Validate
pub mod Execute
pub mod Refresh
pub mod Payload
pub mod Chain
pub mod Prepare
use solana_agent.Prelude.{
  ℕ, suc, ◌/◌, ◌*◌, ◌==◌, String, List, [], ◌∷◌, Option, none, some, Bool, true, false, nat_eq,
  if◌then◌else◌,
}
use solana_agent.Json.{Json}
use solana_agent.Gateway.Protocol.{GatewayError, gateway_error}

pub data PreparationState : Type 0 where
  prepared expired : PreparationState

-- A row of `prepared_executions`, which holds the values where the source writes their JSON texts.
pub record Preparation : Type 0 where
  pub execution_request_id : String
  pub obligation_id : String
  pub economic_plan_hash : String
  pub prepared_json : Json
  pub evidence_json : Json
  pub last_valid_block_height : ℕ
  pub state : PreparationState
  pub updated_at : ℕ

pub data AttemptState : Type 0 where
  broadcast_started submitted needs_recovery failed confirmed : AttemptState

-- A row of `execution_attempts`.
pub record Attempt : Type 0 where
  pub execution_request_id : String
  pub authorization_id : String
  pub prepared_message_hash : Json
  pub execution_commitment_hash : Json
  pub signer : String
  pub signature : String
  pub signed_transaction_base64 : String
  pub authorization_json : Json
  pub state : AttemptState
  pub signature_persisted_at : ℕ
  pub submitted_at : Option ℕ
  pub confirmed_at : Option ℕ
  pub rpc_submission_json : Option Json
  pub status_observation_json : Option Json
  pub receipt_json : Option Json
  pub broadcast_count : ℕ
  pub updated_at : ℕ

-- The newest row and the newest request is first. `clock n` is the n-th next reading of the clock, in
-- microseconds. `posted` is what the RPC received: every call of the transport adds to it.
pub record World : Type 0 where
  pub preparations : List Preparation
  pub attempts : List Attempt
  pub clock : ℕ → ℕ
  pub posted : List Json

-- What a method raises: a `GatewayError`, its subclass `RpcDefinitiveRejection`, or anything else.
pub data Raised : Type 0 where
  gateway rejection : GatewayError → Raised
  exception : Raised

pub data Ending {ℓ} (A : Type ℓ) : Type ℓ where
  ok : A → Ending A
  raised : Raised → Ending A
  died : Ending A

abbrev pub Method : Type 0 → Type 0
Method A = World → Ending A × World

abbrev pub refusal : String → String → Raised
refusal code message = gateway (gateway_error code message)

module _ {A : Type 0} where
  pub pure : A → Method A
  pure a w = (ok a, w)

  pub raise : Raised → Method A
  raise e w = (raised e, w)

  pub die : Method A
  die w = (died, w)

  pub or_raise : Option A → Raised → Method A
  or_raise none e w = (raised e, w)
  or_raise (some a) e w = (ok a, w)

  pub gets : (World → A) → Method A
  gets f w = (ok (f w), w)

  -- `except Exception as error: handler(error)`, which a process that dies does not reach
  abbrev pub handle : (Raised → Method A) → Ending A × World → Ending A × World
  handle h (raised e, w) = h e w
  handle h (ok a, w) = (ok a, w)
  handle h (died, w) = (died, w)

  pub catch : Method A → (Raised → Method A) → Method A
  catch m h w = handle h (m w)

pub require : Bool → Raised → Method (Unit {0})
require true e w = (ok tt, w)
require false e w = (raised e, w)

pub modify : (World → World) → Method (Unit {0})
modify f w = (ok tt, f w)

-- `self._now()` and `datetime.now(UTC)`, and `.replace(microsecond=0)`
pub read_clock : Method ℕ
read_clock w = (ok (w.clock 0), record w { clock = λ n. w.clock (suc n) })

abbrev pub whole : ℕ → ℕ
whole micros = micros / 1000000 * 1000000

infixl 5 ◌>>=◌ ◌>>◌
abbrev pub after : {A B : Type 0} → (A → Method B) → Ending A × World → Ending B × World
after f (ok a, w) = f a w
after f (raised e, w) = (raised e, w)
after f (died, w) = (died, w)

-- Opening the bind opens the methods above with it.
unfoldable pub ◌>>=◌ : {A B : Type 0} → Method A → (A → Method B) → Method B
unfolding pure raise die or_raise gets catch require modify read_clock
◌>>=◌ m f w = after f (m w)

abbrev pub ◌>>◌ : {A B : Type 0} → Method A → Method B → Method B
m >> k = m >>= λ _. k

-- `reach` of gateway/chaos.py with a `ProcessKillHook`, or with no hook
pub data KillPoint : Type 0 where
  after_execution_validated_before_claim : KillPoint
  after_signature_and_broadcast_intent_persisted : KillPoint
  before_send_transaction : KillPoint
  after_send_transaction_response_before_persist : KillPoint

abbrev point_number : KillPoint → ℕ
point_number after_execution_validated_before_claim = 0
point_number after_signature_and_broadcast_intent_persisted = 1
point_number before_send_transaction = 2
point_number after_send_transaction_response_before_persist = 3

abbrev same_point : KillPoint → KillPoint → Bool
same_point p q = nat_eq (point_number p) (point_number q)

pub reach : Option KillPoint → KillPoint → Method (Unit {0})
reach none point = pure tt
reach (some kill_point) point = if same_point kill_point point then die else pure tt
