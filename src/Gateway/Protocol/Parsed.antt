-- ===== src/Gateway/Protocol/Parsed.antt =====
-- Which requests `GatewayRequest.parse` gives (gateway/protocol.py).
use solana_agent.Prelude.{
  ◌≡◌, refl, Bool, true, false, not, ◌&&◌, ◌||◌, Option, none, some, ltb, length, subst, inl, inr,
  Bool-cases, arith, if◌then◌else◌,
}
use solana_agent.Json.{Json, object, get_key, get, json_eq}
use solana_agent.Authority.Keys.{codes}
use solana_agent.Authority.Approvals.{is_blank}
use solana_agent.Gateway.Protocol.{
  GatewayRequest, Fault, Outcome, done, fault, parse, parse_fields, request_dict,
  supported_commands, is_in, is_object, text_or, or_null, has_envelope_keys,
}

-- The identifier is not blank and has at most 128 characters, the command is one of the five, and the
-- payload is an object.
pub record IsRequest (r : GatewayRequest) : Type 0 where
  pub named : is_blank r.gateway_request_id ≡ false
  pub short : ltb 128 (length (codes r.gateway_request_id)) ≡ false
  pub supported : is_in supported_commands r.command ≡ true
  pub payload_object : is_object (some r.payload) ≡ true

guard_done :
    (b : Bool) (f : Fault) {x : Outcome GatewayRequest} {r : GatewayRequest}
    → (if b then fault f else x) ≡ done r
    → (b ≡ false) × (x ≡ done r)
guard_done true f h = absurd (cc)
guard_done false f h = (refl, h)

neither : (a b : Bool) → (a || b) ≡ false → (a ≡ false) × (b ≡ false)
neither a b h = (ground arith, ground arith)

both : (a b : Bool) → not (a && b) ≡ false → (a ≡ true) × (b ≡ true)
both a b h = (ground arith, ground arith)

object_or_null : (v : Option Json) → not (is_object v) ≡ false → is_object (some (or_null v)) ≡ true
object_or_null none h = absurd (cc)
object_or_null (some v) h = ground arith

parse_fields-IsRequest :
    (value : Json) (r : GatewayRequest) → parse_fields value ≡ done r → IsRequest r
unfolding parse_fields
parse_fields-IsRequest value r h =
    let id = get_key "gateway_request_id" value in
    let command = get_key "command" value in
    let payload = get_key "payload" value in
    let (version, h1) = guard_done _ _ h in
    let (name, h2) = guard_done _ _ h1 in
    let (short, h3) = guard_done _ _ h2 in
    let (hash, h4) = guard_done _ _ h3 in
    let (known, h5) = guard_done _ _ h4 in
    let (given, h6) = guard_done _ _ h5 in
    let made : GatewayRequest = record {
      gateway_request_id = text_or "" id;
      command = text_or "" command;
      payload = or_null payload;
    } in
    let whole : done made ≡ done r = h6 in
    let same : made ≡ r = cc whole in
    subst IsRequest same (record {
      named = (neither _ _ name).1;
      short = short;
      supported = (both _ _ known).1;
      payload_object = object_or_null payload given;
    })

-- What `parse` gives has an identifier of at most 128 characters that is not blank, one of the five
-- commands, and an object for its payload.
pub parse-IsRequest : (value : Json) (r : GatewayRequest) → parse value ≡ done r → IsRequest r
unfolding parse
parse-IsRequest (object fs) r h = elim (Bool-cases (has_envelope_keys fs)) [
  | inl closed ↦ parse_fields-IsRequest (object fs) r (rw closed at h)
  | inr other ↦ absurd (cc)
]
parse-IsRequest _ r h = absurd (cc)

-- Every request whose identifier is not blank and has at most 128 characters, whose command is one of
-- the five and whose payload is an object is parsed from its own dict.
pub parse-request_dict : (r : GatewayRequest) → IsRequest r → parse (request_dict r) ≡ done r
unfolding parse parse_fields has_envelope_keys get_key get json_eq
parse-request_dict r valid =
    rw valid.named (rw valid.short (rw valid.supported (rw valid.payload_object refl)))
