-- ===== src/Gateway/Solana/Cleared.antt =====
-- What `authorize_and_execute` (gateway/solana_execute.py) has checked of a transaction that it asks
-- the RPC to send.
pub mod Sends
use solana_agent.Prelude.{
  ℕ, String, Bool, true, false, ◌&&◌, Option, none, some, List, ◌∷◌, ◌≡◌, refl, ◌⊎◌, inl, inr,
  arith,
}
use solana_agent.Json.{Json, Fields, text, object, get, get_key, json_eq}
use solana_agent.Gateway.Protocol.{text_or}
use solana_agent.Gateway.Solana.{World, ok, pure}
use solana_agent.Gateway.Solana.Keeps.{Keeps, Keeps-modify, Keeps-reach, Keeps-raise, keeping}
use solana_agent.Gateway.Solana.Library.{
  Library, SolanaBackend, Bytes, Verifier, identifier, closed_object, hash_bytes,
}
use solana_agent.Gateway.Solana.Validate.{
  Validated, validate_execution, require_message, require_bound, require_authentic,
  require_authorization, unsigned, same_item, is_true,
}
use solana_agent.Gateway.Solana.Execute.{
  require_signed, claim_of, as_text, execute_with, execute_verified, authorize_and_execute,
}
use solana_agent.Gateway.Solana.Attempts.{Claim}
use solana_agent.Gateway.Solana.Calls.{
  Yields, Yields-any, Yields-pure, Yields-or_raise, Yields-require, Yields-bind, Yields-skip,
  Yields-raise, Yields-if,
}

module _ (lib : Library) where
  -- The message has the hash that the prepared row gives.
  pub record HasHash (row_json : Json) (message : Bytes) : Type 0 where
    pub hash : Json
    pub prepared_hash : get_key "prepared_message_hash" row_json ≡ some hash
    pub same : json_eq (text (hash_bytes lib message)) hash ≡ true

  -- The verifier accepts the authorization, of that hash, without its signature.
  pub record IsAuthentic (verify : Verifier) (authorization : Fields) : Type 0 where
    pub bytes : Bytes
    pub canonical : lib.canonical_bytes (object (unsigned authorization)) ≡ some bytes
    pub verified :
        is_true (verify bytes (text_or "" (get "authorization_signature" authorization))) ≡ true

  -- The authorization names the request and that hash.
  pub record IsBound (id : String) (row_json : Json) (authorization : Fields) : Type 0 where
    pub requested : same_item "execution_request_id" authorization (text id) ≡ true
    pub hash : Json
    pub prepared_hash : get_key "prepared_message_hash" row_json ≡ some hash
    pub bound : same_item "prepared_message_hash" authorization hash ≡ true

  pub record IsValid (verify : Verifier) (payload : Fields) (v : Validated) : Type 0 where
    pub given : get "execution_authorization" payload ≡ some (object v.authorization)
    pub named : get "authorization_id" v.authorization ≡ some (text v.authorization_id)
    pub message : HasHash v.row_json v.message
    pub id : String
    pub asked : get "execution_request_id" payload ≡ some (text id)
    pub bound : IsBound id v.row_json v.authorization
    pub authentic : IsAuthentic verify v.authorization

  closed_object-Yields :
      (names : List String) (label : String) (v : Option Json)
      → Yields (λ fs. v ≡ some (object fs)) (closed_object names label v)
  unfolding closed_object
  closed_object-Yields names label none = Yields-raise _
  closed_object-Yields names label (some (Json.object fs)) =
      Yields-if _ _ _ (Yields-pure fs refl) (Yields-raise _)
  closed_object-Yields names label (some _) = Yields-raise _

  identifier-Yields :
      (label : String) (v : Option Json) → Yields (λ s. v ≡ some (text s)) (identifier label v)
  unfolding identifier
  identifier-Yields label none = Yields-raise _
  identifier-Yields label (some (Json.text s)) =
      Yields-if _ _ _ (Yields-pure s refl) (Yields-raise _)
  identifier-Yields label (some _) = Yields-raise _

  as_text-Yields : (j : Json) → Yields (λ s. j ≡ text s) (as_text j)
  unfolding as_text
  as_text-Yields (Json.text s) = Yields-pure s refl
  as_text-Yields _ = Yields-raise _

  module _ (b : SolanaBackend) where
    require_message-Yields :
        (payload : Fields) (j : Json) → Yields (HasHash j) (require_message lib b payload j)
    unfolding require_message
    require_message-Yields payload j = Yields-skip _ _ (λ persisted. Yields-skip _ _ (λ u.
        Yields-skip _ _ (λ message. Yields-bind _ _ (Yields-or_raise _ _) (λ hash found.
          Yields-bind _ _ (Yields-require _ _) (λ u same.
            Yields-pure message (record { hash = hash; prepared_hash = found; same = same }))))))

    require_bound-Yields :
        (authorization : Fields) (id : String) (j : Json)
        → Yields (λ u. IsBound id j authorization) (require_bound lib b authorization id j)
    unfolding require_bound
    require_bound-Yields authorization id j = Yields-skip _ _ (λ commitment.
        Yields-bind _ _ (Yields-or_raise _ _) (λ hash found. Yields-skip _ _ (λ signer. record {
          at = λ w u h. record {
            requested = first _ _ ((Yields-require _ _).at w u h);
            hash = hash;
            prepared_hash = found;
            bound = third _ _ _ _ ((Yields-require _ _).at w u h);
          };
        })))
      where
        first : (x y : Bool) → x && y ≡ true → x ≡ true
        first x y h = ground arith

        third : (x y z t : Bool) → x && (y && (z && t)) ≡ true → z ≡ true
        third x y z t h = ground arith

    require_authentic-Yields :
        (verify : Verifier) (authorization : Fields)
        → Yields
            (λ u. IsAuthentic verify authorization)
            (require_authentic lib b verify authorization)
    unfolding require_authentic
    require_authentic-Yields verify authorization = Yields-skip _ _ (λ u.
        Yields-bind _ _ (Yields-or_raise _ _) (λ bytes found. record {
          at = λ w u h. record {
            bytes = bytes;
            canonical = found;
            verified = (Yields-require _ _).at w u h;
          };
        }))

    -- What `require_authorization` tells of its two results.
    pub record IsAuthorization (verify : Verifier) (value : Option Json) (id : String)
        (row_json : Json) (r : Fields × String) : Type 0 where
      given : value ≡ some (object r.0)
      named : get "authorization_id" r.0 ≡ some (text r.1)
      bound : IsBound id row_json r.0
      authentic : IsAuthentic verify r.0

    require_authorization-Yields :
        (verify : Verifier) (value : Option Json) (id : String) (j : Json) (now : ℕ)
        → Yields
            (IsAuthorization verify value id j)
            (require_authorization lib b verify value id j now)
    unfolding require_authorization
    require_authorization-Yields verify value id j now =
        Yields-bind _ _ (closed_object-Yields _ _ value) (λ authorization given.
          Yields-skip _ _ (λ u. Yields-bind _ _ (identifier-Yields _ _) (λ name named.
            Yields-skip _ _ (λ u. Yields-skip _ _ (λ u.
              Yields-bind _ _ (require_bound-Yields authorization id j) (λ u bound.
                Yields-skip _ _ (λ u.
                  Yields-bind _ _ (require_authentic-Yields verify authorization) (λ u authentic.
                    Yields-pure (authorization, name)
                      (record {
                        given = given;
                        named = named;
                        bound = bound;
                        authentic = authentic;
                      })))))))))

    pub validate_execution-Yields :
        (verify : Verifier) (payload : Fields)
        → Yields (IsValid verify payload) (validate_execution lib b verify payload)
    unfolding validate_execution
    validate_execution-Yields verify payload = Yields-skip _ _ (λ u.
        Yields-bind _ _ (identifier-Yields _ _) (λ id asked. Yields-skip _ _ (λ found.
          Yields-skip _ _ (λ row. Yields-skip _ _ (λ now.
            Yields-bind _ _ (require_message-Yields payload row.prepared_json) (λ message hashed.
              Yields-bind _ _ (require_authorization-Yields verify _ id _ now) (λ r authorized.
                Yields-skip _ _ (λ signature. Yields-pure _ (record {
                  given = authorized.given;
                  named = authorized.named;
                  message = hashed;
                  id = id;
                  asked = asked;
                  bound = authorized.bound;
                  authentic = authorized.authentic;
                })))))))))
