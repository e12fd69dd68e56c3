-- ===== src/Gateway/Solana/Sent.antt =====
-- What the requests that the RPC received (`JsonRpcClient.call` of gateway/solana_prepare.py) asked it to
-- send, read from the requests themselves.
use solana_agent.Prelude.{
  String, Bool, false, ◌==◌, Option, some, List, [], ◌∷◌, ◌≡◌, refl, if◌then◌else◌,
}
use solana_agent.Prelude.Int.{pos}
use solana_agent.Json.{Json, boolean, number, text, dict, array_of, get_key, get}
use solana_agent.Gateway.Solana.Rpc.{rpc_payload}

abbrev is_send_method : Option Json → Bool
is_send_method (some (text method)) = method == "sendTransaction"
is_send_method _ = false

-- A request that asks for the method `sendTransaction`.
abbrev pub is_send : Json → Bool
is_send request = is_send_method (get_key "method" request)

abbrev pub sends : List Json → List Json
sends [] = []
sends (request ∷ requests) = if is_send request then request ∷ sends requests else sends requests

-- The request that asks to send a transaction, once and after its preflight.
abbrev pub send_request : String → Json
send_request transaction = dict (
    ("jsonrpc", text "2.0")
    ∷ ("id", text "gateway-sendTransaction")
    ∷ ("method", text "sendTransaction")
    ∷ (
      "params",
      array_of (
          text transaction
          ∷ dict (
              ("encoding", text "base64")
              ∷ ("skipPreflight", boolean false)
              ∷ ("preflightCommitment", text "confirmed")
              ∷ ("maxRetries", number (pos 0))
              ∷ [])
          ∷ []),
    )
    ∷ [])

pub rpc_payload-is_send :
    (method : String) (params : List Json)
    → is_send (rpc_payload method params) ≡ (method == "sendTransaction")
unfolding get_key get
rpc_payload-is_send method params = refl

pub sends-other : (p : Json) (ps : List Json) → is_send p ≡ false → sends (p ∷ ps) ≡ sends ps
sends-other p ps other = rw other refl
