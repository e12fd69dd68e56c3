-- ===== src/Gateway/Service.antt =====
-- `ExternalExecutionGateway.handle` (gateway/service.py), with the backend of gateway/backend.py as a
-- parameter.
pub mod Once
pub mod Replay
use solana_agent.Prelude.{String, Bool, true, false, Option, none, some, List, [], ◌∷◌}
use solana_agent.Json.{Json, Fields, object}
use solana_agent.Env.{Env}
use solana_agent.Gateway.Protocol.{
  GatewayRequest, GatewayError, gateway_error, Outcome, done, fault, parse, result_envelope,
  error_envelope,
}
use solana_agent.Gateway.Journal.{
  GatewayTables, Disposition, new, conflict, needs_recovery, replay, reserve, complete,
  record_response,
}

-- What a method of the backend does: it returns a dict or another value, or raises a `GatewayError` or
-- another exception.
pub data BackendAnswer : Type 0 where
  answered : Fields → BackendAnswer
  answered_other : BackendAnswer
  backend_error : GatewayError → BackendAnswer
  backend_exception : BackendAnswer

-- An answer can depend on the requests that the backend had before.
abbrev pub Backend : Type 0
Backend = List GatewayRequest → GatewayRequest → BackendAnswer

-- The journal, and the requests that the backend had, newest first.
pub record Gateway : Type 0 where
  pub journal : GatewayTables
  pub dispatched : List GatewayRequest

module _ (env : Env) where
  abbrev completed_with : GatewayRequest → Json → Bool → Gateway → Json × Gateway
  completed_with r response is_failed g =
      let (persisted, t) = complete env r response is_failed g.journal in
      (persisted, record g { journal = t })

  -- The `try` block after the call of the handler, and the two handlers of exceptions.
  unfoldable pub conclude_answer : GatewayRequest → BackendAnswer → Gateway → Json × Gateway
  conclude_answer r (answered result) g =
      completed_with r (result_envelope r (object result)) false g
  conclude_answer r answered_other g =
      completed_with r
        (error_envelope r
          (gateway_error "invalid_backend_response" "backend response must be a JSON object"))
        true g
  conclude_answer r (backend_error e) g = completed_with r (error_envelope r e) true g
  conclude_answer r backend_exception g =
      completed_with r
        (error_envelope r
          (gateway_error "backend_failure" "backend failed without a protocol-safe error"))
        true g

  abbrev recorded : GatewayRequest → String → GatewayError → Gateway → Json × Gateway
  recorded r event_type e g =
      let (persisted, t) =
        record_response r.gateway_request_id event_type (error_envelope r e) g.journal in
      (persisted, record g { journal = t })

  -- The call of the backend's method.
  abbrev pub dispatch : GatewayRequest → Gateway → Gateway
  dispatch r g = record g { dispatched = r ∷ g.dispatched }

  unfoldable pub after_reserve : Backend → GatewayRequest → Disposition → Gateway → Json × Gateway
  unfolding conclude_answer
  after_reserve backend r (replay response) g = (response, g)
  after_reserve backend r conflict g =
      recorded r "idempotency_conflict_response"
        (gateway_error "idempotency_conflict"
          "gateway_request_id was already used for different input")
        g
  after_reserve backend r needs_recovery g =
      recorded r "recovery_required_response"
        (gateway_error "needs_recovery"
          "a prior attempt has no durable response; automatic redispatch is forbidden")
        g
  after_reserve backend r new g = conclude_answer r (backend g.dispatched r) (dispatch r g)

  abbrev pub reserved_in : GatewayRequest → Gateway → Disposition × Gateway
  reserved_in r g =
      let (disposition, t) = reserve env r g.journal in (disposition, record g { journal = t })

  unfoldable pub handle_request : Backend → GatewayRequest → Gateway → Json × Gateway
  unfolding after_reserve
  handle_request backend r g =
      let (disposition, h) = reserved_in r g in after_reserve backend r disposition h

  unfoldable pub handle_parsed : Backend → Outcome GatewayRequest → Gateway → Outcome Json × Gateway
  unfolding handle_request
  handle_parsed backend (done r) g =
      let (response, h) = handle_request backend r g in (done response, h)
  handle_parsed backend (fault f) g = (fault f, g)

  unfoldable pub handle : Backend → Json → Gateway → Outcome Json × Gateway
  unfolding handle_parsed
  handle backend value g = handle_parsed backend (parse value) g

  -- A process that dies while it handles a request: after the reservation is committed, or after the
  -- backend was called and before the response is.
  unfoldable pub die_reserved : GatewayRequest → Gateway → Gateway
  die_reserved r g = (reserved_in r g).1

  unfoldable pub dispatch_new : GatewayRequest → Disposition → Gateway → Gateway
  dispatch_new r new g = dispatch r g
  dispatch_new r _ g = g

  unfoldable pub die_dispatched : GatewayRequest → Gateway → Gateway
  unfolding dispatch_new
  die_dispatched r g = let (disposition, h) = reserved_in r g in dispatch_new r disposition h
