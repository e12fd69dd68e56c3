-- ===== src/Gateway/Solana/Rpc.antt =====
-- `JsonRpcClient.call` of gateway/solana_prepare.py over a transport, and what the backend asks of it.
use Prim.Native.String.{◌++◌}
use solana_agent.Prelude.{
  ℕ, String, Bool, true, false, ◌==◌, Option, none, some, List, [], ◌∷◌, if◌then◌else◌,
}
use solana_agent.Json.{
  Json, Fields, null, boolean, number, text, object, dict, fields, array_of, get, get_key,
}
use solana_agent.Gateway.Solana.{
  Method, World, Raised, gateway, rejection, exception, ok, raised, Ending, refusal, pure, raise,
  ◌>>=◌,
}
use solana_agent.Gateway.Solana.Library.{
  SolanaBackend, Transport, TransportAnswer, responded, failed_to_send, safe_int,
}

abbrev pub rpc_payload : String → List Json → Json
rpc_payload method params = dict (
    ("jsonrpc", text "2.0")
    ∷ ("id", text ("gateway-" ++ method))
    ∷ ("method", text method)
    ∷ ("params", array_of params)
    ∷ [])

abbrev pub delivered : TransportAnswer → World → Ending Fields × World
delivered (responded fs) w = (ok fs, w)
delivered failed_to_send w = (raised exception, w)

-- `self.transport.call(…)`
unfoldable pub post : Transport → Json → Method Fields
post transport payload w =
    delivered (transport w.posted payload) (record w { posted = payload ∷ w.posted })

-- `error["code"]` where it is an `int`, which a `bool` is
abbrev rpc_error_code : Option Json → List (String × Json)
rpc_error_code (some (number n)) = ("rpc_error_code", number n) ∷ []
rpc_error_code (some (boolean b)) = ("rpc_error_code", boolean b) ∷ []
rpc_error_code _ = []

abbrev definitive_rejection : String → Json → Raised
definitive_rejection method error = rejection (record {
  code = "definitive_rejection";
  message = "Solana RPC conclusively rejected sendTransaction";
  retryable = false;
  details = fields (("method", text method) ∷ rpc_error_code (get_key "code" error));
})

abbrev rpc_failure : String → Raised
rpc_failure method = gateway (record {
  code = "rpc_failure";
  message = "Solana RPC " ++ (method ++ " failed");
  retryable = true;
  details = fields (("method", text method) ∷ []);
})

abbrev rpc_error : String → Json → Raised
rpc_error method error =
    if method == "sendTransaction" then definitive_rejection method error else rpc_failure method

-- `isinstance(result, (dict, str, int))`
abbrev is_result : Option Json → Bool
is_result (some (object fs)) = true
is_result (some (text s)) = true
is_result (some (number n)) = true
is_result (some (boolean b)) = true
is_result _ = false

abbrev checked_result : String → Fields → Method Fields
checked_result method response =
    if is_result (get "result" response)
    then pure response
    else raise
        (refusal "invalid_rpc_response" ("Solana RPC " ++ (method ++ " returned invalid data")))

-- The tests of the response: an `error` that is null counts as none.
unfoldable pub checked_response : String → Fields → Option Json → Method Fields
checked_response method response none = checked_result method response
checked_response method response (some null) = checked_result method response
checked_response method response (some error) = raise (rpc_error method error)

module _ (backend : SolanaBackend) where
  unfoldable pub rpc_call : String → List Json → Method Fields
  rpc_call method params = do
    response ← post backend.transport (rpc_payload method params)
    checked_response method response (get "error" response)

  abbrev pub confirmed_commitment : Json
  confirmed_commitment = dict (("commitment", text "confirmed") ∷ [])

  -- `_result_int(self.rpc.call("getBlockHeight", [{"commitment": "confirmed"}]), "getBlockHeight")`
  unfoldable pub block_height : Method ℕ
  block_height = do
    response ← rpc_call "getBlockHeight" (confirmed_commitment ∷ [])
    safe_int "getBlockHeight result" (get "result" response)

-- `JsonRpcClient.__post_init__`: the scheme and the host name are what `urlparse` gives.
abbrev pub devnet_endpoint : String
devnet_endpoint = "https://api.devnet.solana.com"

abbrev is_local_host : Option String → Bool
is_local_host none = false
is_local_host (some host) =
    if host == "127.0.0.1" then true else if host == "localhost" then true else host == "::1"

unfoldable pub endpoint_allowed : Bool → String → String → Option String → Bool
endpoint_allowed allow_localhost_proxy endpoint scheme host =
    if endpoint == devnet_endpoint
    then true
    else if allow_localhost_proxy
    then (if scheme == "http" then is_local_host host else false)
    else false
