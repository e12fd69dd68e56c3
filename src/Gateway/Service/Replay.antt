-- ===== src/Gateway/Service/Replay.antt =====
-- Requests that the gateway knows (gateway/service.py).
use solana_agent.Prelude.{
  suc, ◌≡◌, refl, ap, Bool, true, false, ◌==◌, none, some, List, ◌∷◌, inl, inr, if◌then◌else◌,
  eq_refl, Option-cases, Bool-cases,
}
use solana_agent.Prelude.Int.{pos}
use solana_agent.Json.{Json, boolean, number, set_key}
use solana_agent.Env.{Env}
use solana_agent.Gateway.Protocol.{GatewayRequest, done, parse, request_hash}
use solana_agent.Gateway.Journal.{
  GatewayTables, RequestRow, completed_row, now, completed, failed, find_request, reserve,
  reserve_at, reserve_known, complete, complete_rows, record_response, response_event,
}
use solana_agent.Gateway.Service.{
  Backend, BackendAnswer, answered, answered_other, backend_error, backend_exception, Gateway,
  conclude_answer, after_reserve, handle_request, handle_parsed, handle,
}

-- The response in the journal, marked as replayed and with the number of the event of the replay.
abbrev pub replayed_response : Json → GatewayTables → Json
replayed_response response t =
    set_key "journal_sequence" (number (pos (suc t.last_sequence)))
      (set_key "replayed" (boolean true) response)

module _ (env : Env) where
  -- The journal has answered the request.
  pub record IsAnswered (r : GatewayRequest) (response : Json) (g : Gateway) : Type 0 where
    pub row : RequestRow
    pub found : find_request r.gateway_request_id g.journal.requests ≡ some row
    pub same_hash : (row.row_hash == request_hash env r) ≡ true
    pub stored : row.response ≡ some response

  replays :
      (backend : Backend) (r : GatewayRequest) (response : Json) (g : Gateway)
      → IsAnswered r response g
      → ((handle_request env backend r g).0 ≡ replayed_response response g.journal)
        × ((handle_request env backend r g).1.dispatched ≡ g.dispatched)
  unfolding handle_request after_reserve reserve reserve_at reserve_known response_event
  replays backend r response g known =
      rw known.found (rw known.same_hash (rw known.stored (refl, refl)))

  complete-IsAnswered :
      (r : GatewayRequest) (response : Json) (is_failed : Bool) (g : Gateway) (row : RequestRow)
      (rows : List RequestRow)
      → g.journal.requests ≡ row ∷ rows
      → row.gateway_request_id ≡ r.gateway_request_id
      → row.row_hash ≡ request_hash env r
      → IsAnswered r
          (complete env r response is_failed g.journal).0
          (record g { journal = (complete env r response is_failed g.journal).1 })
  unfolding complete complete_rows response_event find_request
  complete-IsAnswered r response is_failed g row rows front same_id same_hash = record {
    row =
        completed_row env r (complete env r response is_failed g.journal).0
          (if is_failed then failed else completed) (now g.journal) row;
    found = rw front (
        rw same_id (
          rw same_hash (
            rw (eq_refl r.gateway_request_id)
              (rw (eq_refl (request_hash env r)) (rw (eq_refl r.gateway_request_id) refl)))));
    same_hash = rw same_id (
        rw same_hash (
          rw (eq_refl r.gateway_request_id)
            (rw (eq_refl (request_hash env r)) (eq_refl (request_hash env r)))));
    stored =
        rw same_id (
          rw same_hash
            (rw (eq_refl r.gateway_request_id) (rw (eq_refl (request_hash env r)) refl)));
  }

  conclude-IsAnswered :
      (r : GatewayRequest) (a : BackendAnswer) (g : Gateway) (row : RequestRow)
      (rows : List RequestRow)
      → g.journal.requests ≡ row ∷ rows
      → row.gateway_request_id ≡ r.gateway_request_id
      → row.row_hash ≡ request_hash env r
      → IsAnswered r (conclude_answer env r a g).0 (conclude_answer env r a g).1
        × ((conclude_answer env r a g).1.dispatched ≡ g.dispatched)
  unfolding conclude_answer
  conclude-IsAnswered r (answered result) g row rows front i h =
      (complete-IsAnswered r _ false g row rows front i h, refl)
  conclude-IsAnswered r answered_other g row rows front i h =
      (complete-IsAnswered r _ true g row rows front i h, refl)
  conclude-IsAnswered r (backend_error e) g row rows front i h =
      (complete-IsAnswered r _ true g row rows front i h, refl)
  conclude-IsAnswered r backend_exception g row rows front i h =
      (complete-IsAnswered r _ true g row rows front i h, refl)

  fresh-IsAnswered :
      (backend : Backend) (r : GatewayRequest) (g : Gateway)
      → find_request r.gateway_request_id g.journal.requests ≡ none
      → IsAnswered r (handle_request env backend r g).0 (handle_request env backend r g).1
        × ((handle_request env backend r g).1.dispatched ≡ r ∷ g.dispatched)
  unfolding handle_request after_reserve reserve reserve_at
  fresh-IsAnswered backend r g fresh = rw fresh (conclude-IsAnswered r _ _ _ _ refl refl refl)

  module _ (value : Json) (r : GatewayRequest) (g : Gateway) (parsed : parse value ≡ done r) where
    -- A request with a new identifier calls the backend once. When the same input comes again, to
    -- whatever backend, the gateway answers with the response that it gave, marked as replayed and with
    -- the number of the replay's event, and calls no backend.
    pub handle-replays :
        (first second : Backend)
        → find_request r.gateway_request_id g.journal.requests ≡ none
        → let once = handle env first value g in
          (response : Json) × (once.0 ≡ done response)
          × (once.1.dispatched ≡ r ∷ g.dispatched)
          × ((handle env second value once.1).0 ≡ done (replayed_response response once.1.journal))
          × ((handle env second value once.1).1.dispatched ≡ once.1.dispatched)
    unfolding handle handle_parsed
    handle-replays first second fresh =
        let (known, called) = fresh-IsAnswered first r g fresh in
        let (same, quiet) = replays second r _ _ known in
        (
          (handle_request env first r g).0,
          rw parsed refl,
          rw parsed called,
          rw parsed (ap done same),
          rw parsed quiet,
        )

    -- A request whose identifier the journal knows never calls the backend and changes no row, whether
    -- it is answered from the journal, refused as a conflict or sent to recovery.
    pub handle-known :
        (backend : Backend) (row : RequestRow)
        → find_request r.gateway_request_id g.journal.requests ≡ some row
        → ((handle env backend value g).1.dispatched ≡ g.dispatched)
          × ((handle env backend value g).1.journal.requests ≡ g.journal.requests)
    unfolding handle handle_parsed handle_request after_reserve reserve reserve_at reserve_known
        record_response response_event
    handle-known backend row found = rw parsed (
        rw found (elim (Bool-cases (row.row_hash == request_hash env r)) [
          | inl same ↦ rw same (elim (Option-cases row.response) [
            | inl open_row ↦ rw open_row (refl, refl)
            | inr (response, ready) ↦ rw ready (refl, refl)
          ])
          | inr other ↦ rw other (refl, refl)
        ]))
