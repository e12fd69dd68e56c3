-- ===== src/Gateway/Solana/Cleared/Sends.antt =====
-- The requests to send of `authorize_and_execute` (gateway/solana_execute.py).
use mathlib.Core.List.{Memᴰ}
use solana_agent.Prelude.{
  ℕ, String, Bool, true, false, ◌==◌, Option, none, some, List, [], ◌∷◌, ◌≡◌, ◌∙◌, refl, sym, ap,
  subst, ◌⊎◌, inl, inr, eq_iff, Bool-cases, if◌then◌else◌,
}
use solana_agent.Json.{Json, Fields, text, get, get_key}
use solana_agent.Gateway.Solana.{World, Preparation, whole, raise}
use solana_agent.Gateway.Solana.Keeps.{
  Keeps-reach, Keeps-raise, Keeps-require, Keeps-gets, Keeps-or_raise, Leads-ended,
}
use solana_agent.Gateway.Solana.Library.{Library, SolanaBackend, Bytes, Verifier}
use solana_agent.Gateway.Solana.Preparations.{find_preparation, get_preparation}
use solana_agent.Gateway.Solana.Validate.{Validated, validate_execution}
use solana_agent.Gateway.Solana.Attempts.{Claim}
use solana_agent.Gateway.Solana.Execute.{
  require_signed, claim_of, send, submit, execute_claimed, execute_validated, execute_with,
  execute_verified, authorize_and_execute, send_params,
}
use solana_agent.Gateway.Solana.Sent.{sends, send_request}
use solana_agent.Gateway.Solana.Quiet.{Keeps-read_clock, Leads-rpc_call, identifier-Keeps}
use solana_agent.Gateway.Solana.Quiet.Validate.{validate_execution-Keeps, require_signed-Keeps}
use solana_agent.Gateway.Solana.Loose.{
  IsUntried, claim-Keeps, claim_of-Keeps, after_response-Keeps, after_failure-Keeps,
}
use solana_agent.Gateway.Solana.Calls.{
  Yields, Yields-any, Yields-pure, Yields-or_raise, Yields-require, Yields-skip, Finds, Finds-bind,
  Finds-Yields, Finds-gets, SendsOnce, SendsOnce-silent, SendsOnce-after, SendsOnce-from,
  SendsOnce-then, SendsOnce-catch, Sent, Sent-IsQuiet,
}
use solana_agent.Gateway.Solana.Cleared.{IsValid, validate_execution-Yields, identifier-Yields}

-- What is known of a request to send, of the rows that the store had.
pub record IsCleared (lib : Library) (b : SolanaBackend) (payload : Fields)
    (rows : List Preparation) (request : Json) : Type 0 where
  pub verify : Verifier
  pub configured : b.authorization_verifier ≡ some verify
  pub row : Preparation
  pub stored : Memᴰ row rows
  pub asked : get "execution_request_id" payload ≡ some (text row.execution_request_id)
  pub validated : Validated
  pub prepared : validated.row_json ≡ row.prepared_json
  pub valid : IsValid lib verify payload validated
  pub signed : lib.signature_verifies validated.signature b.signer validated.message ≡ true
  pub transaction :
      request
      ≡ send_request (lib.b64encode (lib.transaction_bytes validated.message validated.signature))

-- The row that a validation has read.
record IsRowOf (payload : Fields) (rows : List Preparation) (v : Validated) : Type 0 where
  row : Preparation
  stored : Memᴰ row rows
  asked : get "execution_request_id" payload ≡ some (text row.execution_request_id)
  prepared : v.row_json ≡ row.prepared_json

some_injective : {x y : Preparation} → some x ≡ some y → x ≡ y
some_injective h = cc

find_preparation-some :
    (id : String) (rows : List Preparation) (row : Preparation)
    → find_preparation id rows ≡ some row
    → Memᴰ row rows × (row.execution_request_id ≡ id)
unfolding find_preparation
find_preparation-some id [] row h = absurd (cc)
find_preparation-some id (first ∷ rows) row h =
    elim (Bool-cases (first.execution_request_id == id)) [
      | inl same ↦
          let is_first = taken (find_preparation id rows) same h in
          (
            Memᴰ.head (sym is_first),
            subst (λ r. r.execution_request_id ≡ id) is_first
                ((eq_iff first.execution_request_id id).0 same),
          )
      | inr other ↦
          let (stored, named) = find_preparation-some id rows row (skipped other h) in
          (Memᴰ.tail stored, named)
    ]
  where
    taken :
        {b : Bool} (rest : Option Preparation)
        → b ≡ true
        → (if b then some first else rest) ≡ some row
        → first ≡ row
    taken {b} rest same h =
        some_injective (subst (λ c. (if c then some first else rest) ≡ some row) same h)

    skipped :
        {b : Bool} {rest : Option Preparation}
        → b ≡ false
        → (if b then some first else rest) ≡ some row
        → rest ≡ some row
    skipped {b} {rest} other h = subst (λ c. (if c then some first else rest) ≡ some row) other h

module _ (lib : Library) (b : SolanaBackend) where
  require_signed-Yields :
      (message signature : Bytes)
      → Yields
          (λ u. lib.signature_verifies signature b.signer message ≡ true)
          (require_signed lib b message signature)
  unfolding require_signed
  require_signed-Yields message signature = Yields-skip _ _ (λ versioned.
      Yields-skip _ _ (λ u. Yields-skip _ _ (λ payer. Yields-skip _ _ (λ u. Yields-require _ _))))

  -- A claim of what was validated.
  record IsClaimOf (v : Validated) (c : Claim) : Type 0 where
    transaction :
        c.signed_transaction_base64 ≡ lib.b64encode (lib.transaction_bytes v.message v.signature)

  claim_of-Yields : (v : Validated) → Yields (IsClaimOf v) (claim_of lib b v)
  unfolding claim_of
  claim_of-Yields v = Yields-skip _ _ (λ id. Yields-skip _ _ (λ request_id.
      Yields-skip _ _
        (λ hash. Yields-skip _ _ (λ commitment. Yields-pure _ (record { transaction = refl })))))

  Sent-IsUntried : (ps : List Json) → IsUntried (Sent ps)
  Sent-IsUntried ps = record { attempts = λ w rows h. h }

  -- `send` asks to send the transaction of its claim.
  send-SendsOnce :
      {Q : Json → Type 0} (c : Claim)
      → Q (send_request c.signed_transaction_base64)
      → SendsOnce Q (send lib b c)
  unfolding send get_key get
  send-SendsOnce c q = record {
    at = λ w. inr (
      send_request c.signed_transaction_base64,
      q,
      Leads-ended {P = Sent (sends w.posted)}
          {Q = Sent (send_request c.signed_transaction_base64 ∷ sends w.posted)} (λ v h. h)
          (λ v h. h)
          (Leads-rpc_call b "sendTransaction" (send_params c.signed_transaction_base64)
            (λ v same. ap (λ ps. send_request c.signed_transaction_base64 ∷ ps) same))
          w refl,
    );
  }

  execute_claimed-SendsOnce :
      {Q : Json → Type 0} (v : Validated) (c : Claim) (now : ℕ)
      → Q (send_request c.signed_transaction_base64)
      → SendsOnce Q (execute_claimed lib b v c now)
  unfolding execute_claimed submit
  execute_claimed-SendsOnce v c now q =
      SendsOnce-after _ _ (λ ps. claim-Keeps (Sent-IsQuiet ps) (Sent-IsUntried ps) lib b c now)
        (Yields-any _)
        (λ u _.
          SendsOnce-after _ _ (λ ps. Keeps-reach _ _) (Yields-any _)
            (λ u _.
              SendsOnce-catch _ _
                (SendsOnce-after _ _ (λ ps. Keeps-reach _ _) (Yields-any _)
                  (λ u _. SendsOnce-then _ _ (send-SendsOnce c q) (λ response ps.
                    after_response-Keeps (Sent-IsQuiet ps) (Sent-IsUntried ps) lib b v c now
                      response)))
                (λ e ps. after_failure-Keeps (Sent-IsUntried ps) c now e)))

  -- What follows a validation.
  execute_with-SendsOnce :
      (verify : Verifier) (payload : Fields) (rows : List Preparation) (v : Validated)
      → b.authorization_verifier ≡ some verify
      → IsValid lib verify payload v
      → IsRowOf payload rows v
      → SendsOnce (IsCleared lib b payload rows) (execute_validated lib b v)
  unfolding execute_validated
  execute_with-SendsOnce verify payload rows v configured valid of_row =
      SendsOnce-after _ _ (λ ps. Keeps-read_clock (Sent-IsQuiet ps)) (Yields-any _)
        (λ clock _.
          SendsOnce-after _ _
            (λ ps. require_signed-Keeps (Sent-IsQuiet ps) lib b v.message v.signature)
            (require_signed-Yields v.message v.signature)
            (λ u signed.
              SendsOnce-after _ _
                (λ ps. claim_of-Keeps (Sent-IsQuiet ps) (Sent-IsUntried ps) lib b v)
                (claim_of-Yields v)
                (λ c of_v.
                  SendsOnce-after _ _ (λ ps. Keeps-reach _ _) (Yields-any _)
                    (λ u _. execute_claimed-SendsOnce v c (whole clock) (record {
                      verify = verify;
                      configured = configured;
                      row = of_row.row;
                      stored = of_row.stored;
                      asked = of_row.asked;
                      validated = v;
                      prepared = of_row.prepared;
                      valid = valid;
                      signed = signed;
                      transaction = ap send_request of_v.transaction;
                    })))))

  -- The rows stay as they were until the validation has read its row.
  Stored : List Preparation → World → Type 0
  Stored rows w = w.preparations ≡ rows

  validate_execution-Finds :
      (verify : Verifier) (payload : Fields) (rows : List Preparation)
      → Finds (Stored rows) (IsRowOf payload rows) (validate_execution lib b verify payload)
  unfolding validate_execution get_preparation Stored
  validate_execution-Finds verify payload rows =
      Finds-bind _ _ (Keeps-require _ _) (Finds-Yields _ (Yields-any _)) (λ u _.
        Finds-bind _ _ (identifier-Keeps _ _) (Finds-Yields _ (identifier-Yields lib _ _))
          (λ id asked.
            Finds-bind _ _ (Keeps-gets _)
              (Finds-gets {R = λ o. o ≡ find_preparation id rows} _
                (λ w same. ap (find_preparation id) same))
              (λ found read.
                Finds-bind _ _ (Keeps-or_raise _ _) (Finds-Yields _ (Yields-or_raise _ _))
                  (λ row is_found.
                    let (stored, named) = find_preparation-some id rows row (sym read ∙ is_found) in
                    Finds-Yields _ (
                      Yields-skip _ _ (λ now. Yields-skip _ _ (λ message.
                        Yields-skip _ _ (λ authorized. Yields-skip _ _ (λ signature.
                          Yields-pure _ (record {
                            row = row;
                            stored = stored;
                            asked = rw named asked;
                            prepared = refl;
                          }))))))))))

  execute_verified-Sends :
      (o : Option Verifier) (payload : Fields) (w : World)
      → b.authorization_verifier ≡ o
      → (sends (execute_verified lib b o payload w).1.posted ≡ sends w.posted)
        ⊎ ((request : Json) × IsCleared lib b payload w.preparations request
            × (sends (execute_verified lib b o payload w).1.posted ≡ request ∷ sends w.posted))
  unfolding execute_verified execute_with Stored
  execute_verified-Sends none payload w configured =
      (SendsOnce-silent (raise _) (λ ps. Keeps-raise _)).at w
  execute_verified-Sends (some verify) payload w configured =
      SendsOnce-from _ _ w (λ ps. validate_execution-Keeps (Sent-IsQuiet ps) lib b verify payload)
        (λ v returned.
          execute_with-SendsOnce verify payload w.preparations v configured
            ((validate_execution-Yields lib b verify payload).at w v returned)
            ((validate_execution-Finds verify payload w.preparations).at w refl v returned))

  -- `authorize_and_execute` asks the RPC at most once to send something. That request is the one to
  -- send, once and after its preflight, the transaction of a message and its signature by the
  -- configured signer; the hash of the message is the one in the row of the payload's request, which
  -- the store had; the authorization in the payload names that request and that hash; and the
  -- configured verifier accepts the canonical bytes of the authorization. Without a verifier it asks to
  -- send nothing.
  pub authorize_and_execute-sends :
      (payload : Fields) (w : World)
      → let after = (authorize_and_execute lib b payload w).1 in
        (sends after.posted ≡ sends w.posted)
        ⊎ ((request : Json) × IsCleared lib b payload w.preparations request
            × (sends after.posted ≡ request ∷ sends w.posted))
  unfolding authorize_and_execute
  authorize_and_execute-sends payload w =
      execute_verified-Sends b.authorization_verifier payload w refl
