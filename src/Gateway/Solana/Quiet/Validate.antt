-- ===== src/Gateway/Solana/Quiet/Validate.antt =====
-- The validation of an execution (gateway/solana_execute.py) sends nothing.
use solana_agent.Prelude.{ℕ, String, Option}
use solana_agent.Json.{Json, Fields}
use solana_agent.Gateway.Solana.{World, Preparation}
use solana_agent.Gateway.Solana.Keeps.{Keeps, Keeps-modify, Keeps-bind}
use solana_agent.Gateway.Solana.Library.{Library, SolanaBackend, Bytes, Verifier}
use solana_agent.Gateway.Solana.Rpc.{block_height}
use solana_agent.Gateway.Solana.Preparations.{get_preparation, expire}
use solana_agent.Gateway.Solana.Validate.{
  require_active, require_message, require_bound, require_timely, require_authentic,
  require_authorization, require_signature, validate_execution,
}
use solana_agent.Gateway.Solana.Execute.{require_signed}
use solana_agent.Gateway.Solana.Quiet.{IsQuiet, Keeps-read_clock, quiet_rules}

module _ {P : World → Type 0} (quiet : IsQuiet P) where
  pub expire-Keeps : (id : String) → Keeps P (expire id)
  unfolding expire
  expire-Keeps id =
      Keeps-bind _ _ (Keeps-read_clock quiet)
        (λ now. Keeps-modify _ (λ w h. quiet.expired w id _ h))

  pub block_height-Keeps : (b : SolanaBackend) → Keeps P (block_height b)
  unfolding block_height
  block_height-Keeps b = search quiet_rules

module _ {P : World → Type 0} (quiet : IsQuiet P) (lib : Library) (b : SolanaBackend) where
  require_active-Keeps : (row : Preparation) → Keeps P (require_active lib b row)
  unfolding require_active
  require_active-Keeps row = search (quiet_rules, expire-Keeps, block_height-Keeps) depth 16

  require_message-Keeps : (fs : Fields) (j : Json) → Keeps P (require_message lib b fs j)
  unfolding require_message
  require_message-Keeps fs j = search quiet_rules depth 16

  require_bound-Keeps :
      (fs : Fields) (id : String) (j : Json) → Keeps P (require_bound lib b fs id j)
  unfolding require_bound
  require_bound-Keeps fs id j = search quiet_rules depth 16

  require_timely-Keeps :
      (fs : Fields) (j : Json) (now : ℕ) → Keeps P (require_timely lib b fs j now)
  unfolding require_timely
  require_timely-Keeps fs j now = search quiet_rules depth 16

  require_authentic-Keeps :
      (verify : Verifier) (fs : Fields) → Keeps P (require_authentic lib b verify fs)
  unfolding require_authentic
  require_authentic-Keeps verify fs = search quiet_rules depth 16

  require_authorization-Keeps :
      (verify : Verifier) (v : Option Json) (id : String) (j : Json) (now : ℕ)
      → Keeps P (require_authorization lib b verify v id j now)
  unfolding require_authorization
  require_authorization-Keeps verify v id j now =
      search (quiet_rules, require_bound-Keeps, require_timely-Keeps, require_authentic-Keeps) depth
        20

  require_signature-Keeps : (v : Option Json) (j : Json) → Keeps P (require_signature lib b v j)
  unfolding require_signature
  require_signature-Keeps v j = search quiet_rules depth 16

  pub validate_execution-Keeps :
      (verify : Verifier) (payload : Fields) → Keeps P (validate_execution lib b verify payload)
  unfolding validate_execution get_preparation
  validate_execution-Keeps verify payload =
      search
        (
          quiet_rules, require_active-Keeps, require_message-Keeps, require_authorization-Keeps,
          require_signature-Keeps,
        )
        depth 20

  pub require_signed-Keeps :
      (message signature : Bytes) → Keeps P (require_signed lib b message signature)
  unfolding require_signed
  require_signed-Keeps message signature = search quiet_rules depth 16
