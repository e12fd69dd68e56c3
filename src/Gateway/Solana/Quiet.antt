-- ===== src/Gateway/Solana/Quiet.antt =====
-- What depends only on the `sendTransaction` requests and on the columns that a claim writes, and the methods that read
-- inputs and ask the RPC.
pub mod Inspect
pub mod Prepare
pub mod Validate
use solana_agent.Prelude.{
  ℕ, String, Bool, true, false, Option, none, some, List, ◌∷◌, ◌≡◌, ◌==◌, refl, any,
}
use solana_agent.Prelude.Int.{pos}
use solana_agent.Json.{Json, Fields, Items, nil}
use solana_agent.Gateway.Solana.{
  World, Preparation, Attempt, AttemptState, broadcast_started, submitted, needs_recovery, failed,
  confirmed, Method, Raised, gateway, rejection, exception, read_clock, modify, Ending,
}
use solana_agent.Gateway.Solana.Keeps.{
  Keeps, Keeps-modify, Keeps-pure, Keeps-raise, Keeps-bind, Ends, Leads, Leads-bind, Leads-keep,
  Keeps-Leads, keeping,
}
use solana_agent.Gateway.Solana.Library.{
  Library, SolanaBackend, as_object, as_string, safe_int, closed_object, identifier, digest,
  hash_json, parse_timestamp, decode_canonical_base64, pubkey, Transport, TransportAnswer,
  responded, failed_to_send,
}
use solana_agent.Gateway.Solana.Rpc.{post, rpc_call, rpc_payload, checked_response, delivered}
use solana_agent.Gateway.Solana.Sent.{is_send, rpc_payload-is_send}
use solana_agent.Gateway.Solana.Preparations.{Saved, new_preparation, concerns, expire_rows}
use solana_agent.Gateway.Solana.Attempts.{update, update_rows}

-- A change of an attempt that leaves what the claim wrote.
pub record IsUpdate (change : Attempt → Attempt) : Type 0 where
  pub request : (row : Attempt) → (change row).execution_request_id ≡ row.execution_request_id
  pub authorization : (row : Attempt) → (change row).authorization_id ≡ row.authorization_id
  pub signature : (row : Attempt) → (change row).signature ≡ row.signature
  pub transaction :
      (row : Attempt) → (change row).signed_transaction_base64 ≡ row.signed_transaction_base64

pub record IsQuiet (P : World → Type 0) : Type 0 where
  pub clock : (w : World) (c : ℕ → ℕ) → P w → P (record w { clock = c })
  pub posted :
      (w : World) (p : Json) → is_send p ≡ false → P w → P (record w { posted = p ∷ w.posted })
  pub expired :
      (w : World) (id : String) (at : ℕ)
      → P w
      → P (record w { preparations = expire_rows id at w.preparations })
  pub inserted :
      (w : World) (s : Saved) (at : ℕ)
      → any (concerns s.execution_request_id s.obligation_id) w.preparations ≡ false
      → P w
      → P (record w { preparations = new_preparation s at ∷ w.preparations })
  pub attempts :
      (w : World) (selected : Attempt → Bool) (change : Attempt → Attempt)
      → IsUpdate change
      → P w
      → P (record w { attempts = update_rows selected change w.attempts })

module _ {P : World → Type 0} where
  checked_response-Keeps :
      (method : String) (response : Fields) (e : Option Json)
      → Keeps P (checked_response method response e)
  unfolding checked_response
  checked_response-Keeps method response none = search keeping
  checked_response-Keeps method response (some Json.null) = search keeping
  checked_response-Keeps method response (some _) = Keeps-raise _

  pub identifier-Keeps : (label : String) (v : Option Json) → Keeps P (identifier label v)
  unfolding identifier
  identifier-Keeps label none = Keeps-raise _
  identifier-Keeps label (some (Json.text s)) = search keeping
  identifier-Keeps label (some _) = Keeps-raise _

module _ {P Q : World → Type 0} where
  -- The request reaches the RPC, whatever comes back.
  pub Leads-rpc_call :
      (b : SolanaBackend) (method : String) (params : List Json)
      → ((w : World) → P w → Q (record w { posted = rpc_payload method params ∷ w.posted }))
      → Leads P Q Q (rpc_call b method params)
  unfolding rpc_call post
  Leads-rpc_call b method params h =
      Leads-bind _ _
        (record { at = λ w p. came w (b.transport w.posted (rpc_payload method params)) (h w p) })
        (λ response. Leads-keep (λ w q. q) (λ w q. q) (checked_response-Keeps method response _))
    where
      came :
          (w : World) (a : TransportAnswer)
          → Q (record w { posted = rpc_payload method params ∷ w.posted })
          → Ends Q Q (delivered a (record w { posted = rpc_payload method params ∷ w.posted }))
      came w (responded fs) q = q
      came w failed_to_send q = q

module _ {P : World → Type 0} where
  pub Keeps-rpc_call :
      (b : SolanaBackend) (method : String) (params : List Json)
      → ((w : World) → P w → P (record w { posted = rpc_payload method params ∷ w.posted }))
      → Keeps P (rpc_call b method params)
  Keeps-rpc_call b method params h =
      Keeps-Leads (λ w p. p) (λ w p. p) (λ w p. p) (Leads-rpc_call b method params h)

-- `"getBlockHeight"` and the other methods are not `sendTransaction`.
pub is_other : false ≡ false
is_other = refl

module _ {P : World → Type 0} (quiet : IsQuiet P) where
  pub Keeps-read_clock : Keeps P read_clock
  unfolding read_clock
  Keeps-read_clock = record { at = λ w h. quiet.clock w _ h }

  pub as_object-Keeps : (label : String) (v : Option Json) → Keeps P (as_object label v)
  unfolding as_object
  as_object-Keeps label none = Keeps-raise _
  as_object-Keeps label (some (Json.object fs)) = Keeps-pure _
  as_object-Keeps label (some _) = Keeps-raise _

  pub as_string-Keeps : (label : String) (v : Option Json) → Keeps P (as_string label v)
  unfolding as_string
  as_string-Keeps label none = Keeps-raise _
  as_string-Keeps label (some (Json.text s)) = search keeping
  as_string-Keeps label (some _) = Keeps-raise _

  pub safe_int-Keeps : (label : String) (v : Option Json) → Keeps P (safe_int label v)
  unfolding safe_int
  safe_int-Keeps label none = Keeps-raise _
  safe_int-Keeps label (some (Json.number (pos n))) = search keeping
  safe_int-Keeps label (some _) = Keeps-raise _

  pub closed_object-Keeps :
      (names : List String) (label : String) (v : Option Json)
      → Keeps P (closed_object names label v)
  unfolding closed_object
  closed_object-Keeps names label none = Keeps-raise _
  closed_object-Keeps names label (some (Json.object fs)) = search keeping
  closed_object-Keeps names label (some _) = Keeps-raise _

  pub digest-Keeps : (label : String) (v : Option Json) → Keeps P (digest label v)
  unfolding digest
  digest-Keeps label none = Keeps-raise _
  digest-Keeps label (some (Json.text s)) = search keeping
  digest-Keeps label (some _) = Keeps-raise _

  -- A call of another method than `sendTransaction`.
  pub rpc_call-Keeps :
      (b : SolanaBackend) (method : String) (params : List Json)
      → method == "sendTransaction" ≡ false
      → Keeps P (rpc_call b method params)
  rpc_call-Keeps b method params other =
      Keeps-rpc_call b method params
        (λ w h. quiet.posted w _ (rw (rpc_payload-is_send method params) other) h)

  module _ (lib : Library) where
    pub hash_json-Keeps : (v : Json) → Keeps P (hash_json lib v)
    unfolding hash_json
    hash_json-Keeps v = search keeping

    pub parse_timestamp-Keeps : (v : Option Json) → Keeps P (parse_timestamp lib v)
    unfolding parse_timestamp
    parse_timestamp-Keeps none = Keeps-raise _
    parse_timestamp-Keeps (some (Json.text s)) = search keeping
    parse_timestamp-Keeps (some _) = Keeps-raise _

    pub decode_canonical_base64-Keeps : (s : String) → Keeps P (decode_canonical_base64 lib s)
    unfolding decode_canonical_base64
    decode_canonical_base64-Keeps s = search keeping

    pub pubkey-Keeps : (label : String) (v : Option Json) → Keeps P (pubkey lib label v)
    unfolding pubkey
    pubkey-Keeps label none = Keeps-raise _
    pubkey-Keeps label (some (Json.text s)) = search keeping
    pubkey-Keeps label (some _) = Keeps-raise _

pub ruleset quiet_rules = (
  keeping, Keeps-read_clock, rpc_call-Keeps, is_other, as_object-Keeps, as_string-Keeps,
  safe_int-Keeps, closed_object-Keeps, identifier-Keeps, digest-Keeps, hash_json-Keeps,
  parse_timestamp-Keeps, decode_canonical_base64-Keeps, pubkey-Keeps,
)
