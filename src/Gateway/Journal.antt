-- ===== src/Gateway/Journal.antt =====
-- `GatewayJournal` (gateway/journal.py): its two tables, each method in one transaction.
use Prim.Native.String.{◌++◌}
use solana_agent.Prelude.{
  ℕ, suc, String, Bool, true, ◌&&◌, ◌==◌, Option, none, some, List, [], ◌∷◌, if◌then◌else◌,
}
use solana_agent.Prelude.Int.{pos}
use solana_agent.Json.{Json, text, boolean, number, dict, set_key}
use solana_agent.Env.{Env}
use solana_agent.Gateway.Protocol.{GatewayRequest, request_hash}

pub data RequestState : Type 0 where
  reserved completed failed : RequestState

abbrev state_value : RequestState → String
state_value reserved = "reserved"
state_value completed = "completed"
state_value failed = "failed"

-- A row of `gateway_requests`, which holds the request where the source writes its canonical text.
pub record RequestRow : Type 0 where
  pub gateway_request_id : String
  pub command : String
  pub row_hash : String
  pub request : GatewayRequest
  pub response : Option Json
  pub state : RequestState
  pub created_at : ℕ
  pub completed_at : Option ℕ

pub record GatewayEvent : Type 0 where
  pub sequence : ℕ
  pub gateway_request_id : String
  pub event_type : String
  pub value : Json
  pub created_at : ℕ

-- The newest row is first; `last_sequence` is the AUTOINCREMENT counter, and `clock` the next readings.
pub record GatewayTables : Type 0 where
  pub requests : List RequestRow
  pub events : List GatewayEvent
  pub last_sequence : ℕ
  pub clock : ℕ → ℕ

abbrev pub now : GatewayTables → ℕ
now t = t.clock 0

abbrev tick : GatewayTables → GatewayTables
tick t = record t { clock = λ n. t.clock (suc n) }

-- `_event` at a time: the number that it returns is the new `last_sequence`.
abbrev pub event : String → String → Json → ℕ → GatewayTables → GatewayTables
event id event_type value at t = record t {
  events =
      (record {
        sequence = suc t.last_sequence;
        gateway_request_id = id;
        event_type = event_type;
        value = value;
        created_at = at;
      })
      ∷ t.events;
  last_sequence = suc t.last_sequence;
}

-- `_response_event`: the response with the number of its event, and the tables with that event.
abbrev numbered : Json → GatewayTables → Json
numbered response t = set_key "journal_sequence" (number (pos (suc t.last_sequence))) response

unfoldable pub response_event : String → String → Json → ℕ → GatewayTables → Json × GatewayTables
response_event id event_type response at t =
    (numbered response t, event id event_type (numbered response t) at t)

unfoldable pub find_request : String → List RequestRow → Option RequestRow
find_request id [] = none
find_request id (r ∷ rs) = if r.gateway_request_id == id then some r else find_request id rs

pub data Disposition : Type 0 where
  new conflict needs_recovery : Disposition
  replay : Json → Disposition

module _ (env : Env) where
  abbrev new_row : GatewayRequest → ℕ → RequestRow
  new_row r at = record {
    gateway_request_id = r.gateway_request_id;
    command = r.command;
    row_hash = request_hash env r;
    request = r;
    response = none;
    state = reserved;
    created_at = at;
    completed_at = none;
  }

  abbrev add_row : RequestRow → GatewayTables → GatewayTables
  add_row row t = record t { requests = row ∷ t.requests }

  -- A row with the same hash.
  unfoldable pub reserve_known :
      GatewayRequest → RequestRow → Option Json → ℕ → GatewayTables → Disposition × GatewayTables
  reserve_known r row (some response) at t =
      let (again, u) =
        response_event r.gateway_request_id "response_replayed"
          (set_key "replayed" (boolean true) response) at t in
      (replay again, u)
  reserve_known r row none at t = (
    needs_recovery,
    event r.gateway_request_id "recovery_required"
        (dict (("state", text (state_value row.state)) ∷ [])) at t,
  )

  unfoldable pub reserve_at :
      GatewayRequest → Option RequestRow → ℕ → GatewayTables → Disposition × GatewayTables
  unfolding reserve_known
  reserve_at r none at t = (
    new,
    event r.gateway_request_id "request_reserved"
        (dict (("request_hash", text (request_hash env r)) ∷ ("command", text r.command) ∷ [])) at
        (add_row (new_row r at) t),
  )
  reserve_at r (some row) at t =
      if row.row_hash == request_hash env r then reserve_known r row row.response at t else (
        conflict,
        event r.gateway_request_id "idempotency_conflict_detected"
            (dict (
              ("stored_request_hash", text row.row_hash)
              ∷ ("received_request_hash", text (request_hash env r))
              ∷ []))
            at t,
      )

  unfoldable pub reserve : GatewayRequest → GatewayTables → Disposition × GatewayTables
  unfolding reserve_at
  reserve r t = reserve_at r (find_request r.gateway_request_id t.requests) (now t) (tick t)

  -- `WHERE gateway_request_id = ? AND request_hash = ?`
  abbrev pub completed_row : GatewayRequest → Json → RequestState → ℕ → RequestRow → RequestRow
  completed_row r persisted state at row =
      if row.gateway_request_id == r.gateway_request_id && row.row_hash == request_hash env r
      then record row { response = some persisted; state = state; completed_at = some at }
      else row

  unfoldable pub complete_rows :
      GatewayRequest → Json → RequestState → ℕ → List RequestRow → List RequestRow
  complete_rows r persisted state at [] = []
  complete_rows r persisted state at (row ∷ rows) =
      completed_row r persisted state at row ∷ complete_rows r persisted state at rows

  unfoldable pub complete : GatewayRequest → Json → Bool → GatewayTables → Json × GatewayTables
  unfolding complete_rows
  complete r response is_failed t =
      let state = if is_failed then failed else completed in
      let (persisted, u) =
        response_event r.gateway_request_id ("request_" ++ state_value state) response (now t)
          (tick t) in
      (persisted, record u { requests = complete_rows r persisted state (now t) u.requests })

unfoldable pub record_response : String → String → Json → GatewayTables → Json × GatewayTables
record_response id event_type response t = response_event id event_type response (now t) (tick t)
