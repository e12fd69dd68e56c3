-- ===== src/Gateway/Service/Once.antt =====
-- Which requests reach the backend of the gateway (gateway/service.py).
use solana_agent.Prelude.{
  ℕ, String, ◌≡◌, refl, Bool, true, false, ◌==◌, ◌||◌, none, List, [], ◌∷◌, any, All, inl, inr, ◌⊎◌,
  arith, eq_iff, eq_refl, Option-cases, Bool-cases,
}
use solana_agent.Json.{Json}
use solana_agent.Env.{Env}
use solana_agent.Gateway.Protocol.{GatewayRequest, Outcome, done, fault, parse, request_hash}
use solana_agent.Gateway.Journal.{
  GatewayTables, RequestRow, RequestState, Disposition, new, conflict, needs_recovery, replay,
  find_request, reserve, reserve_at, reserve_known, complete, complete_rows, record_response,
  response_event,
}
use solana_agent.Gateway.Service.{
  dispatch, Backend, BackendAnswer, answered, answered_other, backend_error, backend_exception,
  Gateway, conclude_answer, after_reserve, handle_request, handle_parsed, handle, die_reserved,
  dispatch_new, die_dispatched,
}

-- One thing that can happen to the gateway: a request is handled, or the process dies in the middle.
pub data Step (env : Env) (g : Gateway) : Gateway → Type 0 where
  handled : (backend : Backend) (value : Json) → Step env g (handle env backend value g).1
  died_reserved : (r : GatewayRequest) → Step env g (die_reserved env r g)
  died_dispatched : (r : GatewayRequest) → Step env g (die_dispatched env r g)

pub data Steps (env : Env) (g : Gateway) : Gateway → Type 0 where
  start : Steps env g g
  then : {h k : Gateway} → Steps env g h → Step env h k → Steps env g k

abbrev known : String → List RequestRow → Bool
known id rows = any (λ row. row.gateway_request_id == id) rows

-- No two of the requests have the same identifier.
abbrev pub AreDistinct : List GatewayRequest → Type 0
AreDistinct [] = Unit
AreDistinct (r ∷ rs) =
    (any (λ o. o.gateway_request_id == r.gateway_request_id) rs ≡ false) × AreDistinct rs

pub record IsOnce (g : Gateway) : Type 0 where
  pub reserved : All (λ r. known r.gateway_request_id g.journal.requests ≡ true) g.dispatched
  pub distinct : AreDistinct g.dispatched

is_new : Disposition → Bool
is_new new = true
is_new _ = false

find_request-none :
    (id : String) (rows : List RequestRow) → find_request id rows ≡ none → known id rows ≡ false
unfolding find_request
find_request-none id [] h = refl
find_request-none id (row ∷ rows) h = ground (arith, find_request-none id rows)

known-complete_rows :
    (env : Env) (r : GatewayRequest) (persisted : Json) (state : RequestState) (at : ℕ)
    (id : String) (rows : List RequestRow)
    → known id (complete_rows env r persisted state at rows) ≡ known id rows
unfolding complete_rows
known-complete_rows env r persisted state at id [] = refl
known-complete_rows env r persisted state at id (row ∷ rows) =
    ground (arith, known-complete_rows env r persisted state at id rows)

not_known :
    (id : String) (rows : List RequestRow) (rs : List GatewayRequest)
    → known id rows ≡ false
    → All (λ r. known r.gateway_request_id rows ≡ true) rs
    → any (λ o. o.gateway_request_id == id) rs ≡ false
not_known id rows [] h all = refl
not_known id rows (r ∷ rs) h all =
    ground (arith, eq_iff r.gateway_request_id id, not_known id rows rs h all.1)

known-All :
    (rows more : List RequestRow) (rs : List GatewayRequest)
    → ((id : String) → known id rows ≡ true → known id more ≡ true)
    → All (λ r. known r.gateway_request_id rows ≡ true) rs
    → All (λ r. known r.gateway_request_id more ≡ true) rs
known-All rows more [] grow all = tt
known-All rows more (r ∷ rs) grow all =
    (grow r.gateway_request_id all.0, known-All rows more rs grow all.1)

module _ (env : Env) where
  -- A reservation is new where the identifier was not known, and then it is; or it writes no row.
  abbrev Reserved : GatewayRequest → List RequestRow → Disposition × GatewayTables → Type 0
  Reserved r rows (d, t) =
      ((is_new d ≡ true)
        × (known r.gateway_request_id rows ≡ false)
        × ((id : String) → known id t.requests ≡ ((r.gateway_request_id == id) || known id rows)))
      ⊎ ((is_new d ≡ false) × (t.requests ≡ rows))

  reserve-Reserved :
      (r : GatewayRequest) (t : GatewayTables) → Reserved r t.requests (reserve env r t)
  unfolding reserve reserve_at reserve_known response_event is_new
  reserve-Reserved r t = elim (Option-cases (find_request r.gateway_request_id t.requests)) [
    | inl fresh ↦
        rw fresh (inl (refl, find_request-none r.gateway_request_id t.requests fresh, λ id. refl))
    | inr (row, found) ↦ rw found (elim (Bool-cases (row.row_hash == request_hash env r)) [
      | inl same ↦ rw same (elim (Option-cases row.response) [
        | inl open_row ↦ rw open_row (inr (refl, refl))
        | inr (response, ready) ↦ rw ready (inr (refl, refl))
      ])
      | inr other ↦ rw other (inr (refl, refl))
    ])
  ]

  IsOnce-same :
      (g h : Gateway)
      → ((id : String) → known id g.journal.requests ≡ true → known id h.journal.requests ≡ true)
      → h.dispatched ≡ g.dispatched
      → IsOnce g
      → IsOnce h
  IsOnce-same g h grow same once = record {
    reserved =
        rw same (known-All g.journal.requests h.journal.requests g.dispatched grow once.reserved);
    distinct = rw same once.distinct;
  }

  -- After the reservation, and with the call of the backend where it was new.
  Reserved-IsOnce :
      (r : GatewayRequest) (g : Gateway) (p : Disposition × GatewayTables)
      → Reserved r g.journal.requests p
      → IsOnce g
      → IsOnce (record g { journal = p.1 })
        × (is_new p.0 ≡ true → IsOnce (dispatch env r (record g { journal = p.1 })))
  Reserved-IsOnce r g (d, t) (inr (old, same)) once =
      (IsOnce-same g _ (λ id h. rw same h) refl once, λ n. absurd (cc))
  Reserved-IsOnce r g (d, t) (inl (fresh, unknown, now_known)) once =
      let grown =
        known-All g.journal.requests t.requests g.dispatched (λ id h. ground (arith, now_known id))
          once.reserved in
      (
        record { reserved = grown; distinct = once.distinct },
        λ n. record {
          reserved =
              (ground (arith, now_known r.gateway_request_id, eq_refl r.gateway_request_id), grown);
          distinct = (
            not_known r.gateway_request_id g.journal.requests g.dispatched unknown once.reserved,
            once.distinct,
          );
        },
      )

  conclude-IsOnce :
      (r : GatewayRequest) (a : BackendAnswer) (g : Gateway)
      → IsOnce g
      → IsOnce (conclude_answer env r a g).1
  unfolding conclude_answer complete response_event
  conclude-IsOnce r a g once = by_answer a
    where
      by_answer : (b : BackendAnswer) → IsOnce (conclude_answer env r b g).1
      by_answer (answered result) =
          IsOnce-same g _ (λ id h. rw (known-complete_rows env r _ _ _ id g.journal.requests) h)
            refl once
      by_answer answered_other =
          IsOnce-same g _ (λ id h. rw (known-complete_rows env r _ _ _ id g.journal.requests) h)
            refl once
      by_answer (backend_error e) =
          IsOnce-same g _ (λ id h. rw (known-complete_rows env r _ _ _ id g.journal.requests) h)
            refl once
      by_answer backend_exception =
          IsOnce-same g _ (λ id h. rw (known-complete_rows env r _ _ _ id g.journal.requests) h)
            refl once

  after_reserve-IsOnce :
      (backend : Backend) (r : GatewayRequest) (d : Disposition) (g : Gateway)
      → IsOnce g × (is_new d ≡ true → IsOnce (dispatch env r g))
      → IsOnce (after_reserve env backend r d g).1
  unfolding after_reserve record_response response_event is_new
  after_reserve-IsOnce backend r (replay response) g (once, called) = once
  after_reserve-IsOnce backend r conflict g (once, called) = IsOnce-same g _ (λ id h. h) refl once
  after_reserve-IsOnce backend r needs_recovery g (once, called) =
      IsOnce-same g _ (λ id h. h) refl once
  after_reserve-IsOnce backend r new g (once, called) =
      conclude-IsOnce r (backend g.dispatched r) (dispatch env r g) (called refl)

  handle_parsed-IsOnce :
      (backend : Backend) (parsed : Outcome GatewayRequest) (g : Gateway)
      → IsOnce g
      → IsOnce (handle_parsed env backend parsed g).1
  unfolding handle_parsed handle_request
  handle_parsed-IsOnce backend (fault f) g once = once
  handle_parsed-IsOnce backend (done r) g once =
      after_reserve-IsOnce backend r (reserve env r g.journal).0 _
        (Reserved-IsOnce r g (reserve env r g.journal) (reserve-Reserved r g.journal) once)

  dispatch_new-IsOnce :
      (r : GatewayRequest) (d : Disposition) (g : Gateway)
      → IsOnce g × (is_new d ≡ true → IsOnce (dispatch env r g))
      → IsOnce (dispatch_new env r d g)
  unfolding dispatch_new is_new
  dispatch_new-IsOnce r new g (once, called) = called refl
  dispatch_new-IsOnce r conflict g (once, called) = once
  dispatch_new-IsOnce r needs_recovery g (once, called) = once
  dispatch_new-IsOnce r (replay response) g (once, called) = once

  Step-IsOnce : {g h : Gateway} → Step env g h → IsOnce g → IsOnce h
  unfolding handle die_reserved die_dispatched
  Step-IsOnce {g} (handled backend value) once = handle_parsed-IsOnce backend (parse value) g once
  Step-IsOnce {g} (died_reserved r) once =
      (Reserved-IsOnce r g (reserve env r g.journal) (reserve-Reserved r g.journal) once).0
  Step-IsOnce {g} (died_dispatched r) once =
      dispatch_new-IsOnce r (reserve env r g.journal).0 _
        (Reserved-IsOnce r g (reserve env r g.journal) (reserve-Reserved r g.journal) once)

  Steps-IsOnce : {g h : Gateway} → Steps env g h → IsOnce g → IsOnce h
  Steps-IsOnce start once = once
  Steps-IsOnce (then steps step) once = Step-IsOnce step (Steps-IsOnce steps once)

  -- From a gateway that has called no backend, every sequence of handled requests and of processes
  -- that die in the middle of one reaches the backend with each request identifier at most once.
  pub dispatched-AreDistinct :
      {g h : Gateway} → g.dispatched ≡ [] → Steps env g h → AreDistinct h.dispatched
  dispatched-AreDistinct {g} empty steps =
      (Steps-IsOnce steps (record { reserved = rw empty tt; distinct = rw empty tt })).distinct
