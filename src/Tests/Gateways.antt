-- ===== src/Tests/Gateways.antt =====
-- The theorems on the gateway at one request.
use solana_agent.Prelude.{◌≡◌, refl, none, [], ◌∷◌}
use solana_agent.Prelude.Int.{pos}
use solana_agent.Json.{Json, text, number, dict, fields, get_key, get, json_eq}
use solana_agent.Authority.Approvals.{is_blank}
use solana_agent.Gateway.Protocol.{
  GatewayRequest, done, request_dict, parse, parse_fields, has_envelope_keys,
}
use solana_agent.Gateway.Protocol.Parsed.{IsRequest, parse-IsRequest, parse-request_dict}
use solana_agent.Gateway.Journal.{RequestRow, reserved, find_request}
use solana_agent.Gateway.Service.{
  Backend, answered, backend_exception, Gateway, handle, die_dispatched,
}
use solana_agent.Gateway.Service.Once.{
  Steps, start, then, handled, died_dispatched, AreDistinct, dispatched-AreDistinct,
}
use solana_agent.Gateway.Service.Replay.{replayed_response, handle-replays, handle-known}
use solana_agent.Tests.Fixtures.{machine}

abbrev value : Json
value = dict (
    ("gateway_protocol_version", text "1.0.0")
    ∷ ("gateway_request_id", text "request")
    ∷ ("command", text "prepare")
    ∷ ("payload", dict (("lamports", number (pos 5)) ∷ []))
    ∷ [])

abbrev request : GatewayRequest
request = record {
  gateway_request_id = "request";
  command = "prepare";
  payload = dict (("lamports", number (pos 5)) ∷ []);
}

abbrev idle : Gateway
idle = record {
  journal = record { requests = []; events = []; last_sequence = 0; clock = λ n. n };
  dispatched = [];
}

abbrev accepts : Backend
accepts before r = answered (fields (("plan", text "p") ∷ []))

abbrev fails : Backend
fails before r = backend_exception

parsed : parse value ≡ done request
unfolding parse parse_fields has_envelope_keys get_key get json_eq is_blank
parsed = refl

handle-replays_example :
    let once = handle machine accepts value idle in
    (response : Json) × (once.0 ≡ done response)
    × (once.1.dispatched ≡ request ∷ [])
    × ((handle machine fails value once.1).0 ≡ done (replayed_response response once.1.journal))
    × ((handle machine fails value once.1).1.dispatched ≡ once.1.dispatched)
unfolding find_request
handle-replays_example = handle-replays machine value request idle parsed accepts fails refl

-- A request that died after its reservation.
abbrev row : RequestRow
row = record {
  gateway_request_id = "request";
  command = "prepare";
  row_hash = "sha256:#{}";
  request = request;
  response = none;
  state = reserved;
  created_at = 0;
  completed_at = none;
}

abbrev broken : Gateway
broken = record idle { journal = record idle.journal { requests = row ∷ [] } }

handle-known_example :
    ((handle machine accepts value broken).1.dispatched ≡ [])
    × ((handle machine accepts value broken).1.journal.requests ≡ row ∷ [])
unfolding find_request
handle-known_example = handle-known machine value request broken parsed accepts row refl

twice : Steps machine idle (handle machine fails value (die_dispatched machine request idle)).1
twice = then (then start (died_dispatched request)) (handled fails value)

dispatched-AreDistinct_example :
    AreDistinct (handle machine fails value (die_dispatched machine request idle)).1.dispatched
dispatched-AreDistinct_example = dispatched-AreDistinct machine refl twice

parse-IsRequest_example : IsRequest request
parse-IsRequest_example = parse-IsRequest value request parsed

request-IsRequest : IsRequest request
unfolding is_blank
request-IsRequest = record { named = refl; short = refl; supported = refl; payload_object = refl }

parse-request_dict_example : parse (request_dict request) ≡ done request
parse-request_dict_example = parse-request_dict request request-IsRequest
