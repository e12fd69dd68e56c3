-- ===== src/Gateway/Solana/Quiet/Prepare.antt =====
-- `prepare` (gateway/solana_prepare.py) sends nothing.
use solana_agent.Prelude.{
  ℕ, String, false, Option, none, some, List, [], ◌∷◌, ◌≡◌, refl, inl, inr, any, arith,
  Option-cases,
}
use solana_agent.Json.{Json, Fields, Items, nil}
use solana_agent.Gateway.Solana.{World, Preparation, read_clock, ◌>>=◌}
use solana_agent.Gateway.Solana.Keeps.{Keeps, Keeps-raise, Keeps-pure, Keeps-bind}
use solana_agent.Gateway.Solana.Library.{Library, SolanaBackend, Bytes}
use solana_agent.Gateway.Solana.Preparations.{
  Saved, concerns, newest_concerning, save_over, save, replay_over, replay_or_block,
}
use solana_agent.Gateway.Solana.Payload.{
  PrepareInput, named_item, bounded_item, amount_item, require_array, require_asset, require_plan,
  require_approval, require_programs, require_constraints, validate_prepare_payload,
}
use solana_agent.Gateway.Solana.Chain.{
  TokenAccount, parsed_info, hash_rpc_observation, ata, account_info, validate_mint,
  validate_token_account, validate_balance, validate_chain_accounts,
}
use solana_agent.Gateway.Solana.Prepare.{
  Transfer, Blockhash, Simulated, Attestation, simulated_error, transfer_of, latest_blockhash,
  message_bytes, simulate, attest, prepared_execution, prepare_new, prepare_unless, prepare,
}
use solana_agent.Gateway.Solana.{Raised}
use solana_agent.Prelude.Int.{pos}
use solana_agent.Gateway.Solana.Quiet.{IsQuiet, pubkey-Keeps, quiet_rules}

module _ {P : World → Type 0} (quiet : IsQuiet P) where
  named_item-Keeps : (e : Raised) (v : Option Json) → Keeps P (named_item e v)
  unfolding named_item
  named_item-Keeps e none = Keeps-raise _
  named_item-Keeps e (some (Json.text s)) = search quiet_rules
  named_item-Keeps e (some _) = Keeps-raise _

  bounded_item-Keeps : (bound : ℕ) (e : Raised) (v : Option Json) → Keeps P (bounded_item bound e v)
  unfolding bounded_item
  bounded_item-Keeps bound e none = Keeps-raise _
  bounded_item-Keeps bound e (some (Json.number (pos n))) = search quiet_rules
  bounded_item-Keeps bound e (some _) = Keeps-raise _

  amount_item-Keeps : (v : Option Json) → Keeps P (amount_item v)
  unfolding amount_item
  amount_item-Keeps none = Keeps-raise _
  amount_item-Keeps (some (Json.text s)) = search quiet_rules
  amount_item-Keeps (some _) = Keeps-raise _

  require_array-Keeps : (v : Option Json) → Keeps P (require_array v)
  unfolding require_array
  require_array-Keeps none = Keeps-raise _
  require_array-Keeps (some (Json.array xs)) = search quiet_rules
  require_array-Keeps (some _) = Keeps-raise _

  parsed_info-Keeps : (account : Fields) (label : String) → Keeps P (parsed_info account label)
  unfolding parsed_info
  parsed_info-Keeps account label = search quiet_rules

  simulated_error-Keeps : (v : Option Json) → Keeps P (simulated_error v)
  simulated_error-Keeps none = Keeps-pure _
  simulated_error-Keeps (some Json.null) = Keeps-pure _
  simulated_error-Keeps (some _) = Keeps-raise _

  module _ (lib : Library) where
    require_asset-Keeps : (v : Option Json) → Keeps P (require_asset lib v)
    unfolding require_asset
    require_asset-Keeps v = search (quiet_rules, bounded_item-Keeps)

    require_plan-Keeps : (now : ℕ) (fs : Fields) → Keeps P (require_plan lib now fs)
    unfolding require_plan
    require_plan-Keeps now fs =
        search (quiet_rules, named_item-Keeps, require_asset-Keeps, amount_item-Keeps) depth 24

    require_approval-Keeps :
        (now : ℕ) (h : String) (v : Option Json) → Keeps P (require_approval lib now h v)
    unfolding require_approval
    require_approval-Keeps now h v = search (quiet_rules, named_item-Keeps) depth 24

    require_programs-Keeps : (xs : Items) → Keeps P (require_programs lib xs)
    unfolding require_programs
    require_programs-Keeps nil = Keeps-pure _
    require_programs-Keeps (Items.item x xs) =
        Keeps-bind _ _ (pubkey-Keeps quiet lib _ _) (λ key. require_programs-Keeps xs)

    require_constraints-Keeps : (fs : Fields) → Keeps P (require_constraints lib fs)
    unfolding require_constraints
    require_constraints-Keeps fs =
        search (quiet_rules, bounded_item-Keeps, require_array-Keeps, require_programs-Keeps) depth
          16

    validate_prepare_payload-Keeps :
        (now : ℕ) (payload : Fields) → Keeps P (validate_prepare_payload lib now payload)
    unfolding validate_prepare_payload
    validate_prepare_payload-Keeps now payload =
        search
          (
            quiet_rules, named_item-Keeps, require_plan-Keeps, require_approval-Keeps,
            require_constraints-Keeps,
          )
          depth 24

    newest_concerning-none :
        (id obligation : String) (rows : List Preparation)
        → newest_concerning lib id obligation rows ≡ none
        → any (concerns id obligation) rows ≡ false
    unfolding newest_concerning
    newest_concerning-none id obligation [] h = refl
    newest_concerning-none id obligation (row ∷ rows) h =
        ground (arith, newest_concerning-none id obligation rows)

    save-Keeps : (s : Saved) → Keeps P (save lib s)
    unfolding save save_over ◌>>=◌ read_clock
    save-Keeps s = record {
      at = λ w h.
          elim (Option-cases
            (newest_concerning lib s.execution_request_id s.obligation_id w.preparations)) [
              | inl missing ↦ rw missing (
                  quiet.inserted _ s _ (newest_concerning-none _ _ w.preparations missing)
                    (quiet.clock w _ h))
              | inr (row, found) ↦ rw found ((by_row row).at w h)
            ];
    }
      where
        by_row : (row : Preparation) → Keeps P (save_over lib s (some row))
        by_row row = search quiet_rules

    replay_over-Keeps : (id h : String) (o : Option Preparation) → Keeps P (replay_over lib id h o)
    unfolding replay_over
    replay_over-Keeps id h none = Keeps-pure _
    replay_over-Keeps id h (some row) = search quiet_rules

module _ {P : World → Type 0} (quiet : IsQuiet P) (lib : Library) (b : SolanaBackend) where
  account_info-Keeps : (key : Bytes) → Keeps P (account_info lib b key)
  unfolding account_info
  account_info-Keeps key = search quiet_rules depth 12

  validate_chain_accounts-Keeps :
      (mint : Bytes) (decimals : ℕ) (source destination : TokenAccount) (amount : ℕ)
      → Keeps P (validate_chain_accounts lib b mint decimals source destination amount)
  unfolding validate_chain_accounts validate_mint validate_token_account validate_balance
  validate_chain_accounts-Keeps mint decimals source destination amount =
      search (quiet_rules, account_info-Keeps, parsed_info-Keeps) depth 30

  transfer_of-Keeps : (input : PrepareInput) → Keeps P (transfer_of lib b input)
  unfolding transfer_of ata
  transfer_of-Keeps input = search quiet_rules depth 24

  latest_blockhash-Keeps : Keeps P (latest_blockhash lib b)
  unfolding latest_blockhash
  latest_blockhash-Keeps = search quiet_rules depth 16

  message_bytes-Keeps :
      (input : PrepareInput) (t : Transfer) (h : Blockhash)
      → Keeps P (message_bytes lib b input t h)
  unfolding message_bytes
  message_bytes-Keeps input t h = search quiet_rules

  simulate-Keeps : (message : Bytes) (t : Transfer) → Keeps P (simulate lib b message t)
  unfolding simulate
  simulate-Keeps message t = search (quiet_rules, simulated_error-Keeps) depth 16

  attest-Keeps :
      (input : PrepareInput) (g : String) (h : Blockhash) (s : Simulated)
      → Keeps P (attest lib b input g h s)
  unfolding attest hash_rpc_observation
  attest-Keeps input g h s = search quiet_rules depth 24

  prepared_execution-Keeps :
      (input : PrepareInput) (message : Bytes) (a : Attestation)
      → Keeps P (prepared_execution lib b input message a)
  unfolding prepared_execution
  prepared_execution-Keeps input message a = search quiet_rules

  prepare_new-Keeps : (input : PrepareInput) → Keeps P (prepare_new lib b input)
  unfolding prepare_new
  prepare_new-Keeps input =
      search
        (
          quiet_rules, transfer_of-Keeps, validate_chain_accounts-Keeps, latest_blockhash-Keeps,
          message_bytes-Keeps, simulate-Keeps, attest-Keeps, prepared_execution-Keeps, save-Keeps,
        )
        depth 24

  prepare_unless-Keeps :
      (input : PrepareInput) (o : Option Json) → Keeps P (prepare_unless lib b input o)
  unfolding prepare_unless
  prepare_unless-Keeps input none = prepare_new-Keeps input
  prepare_unless-Keeps input (some j) = Keeps-pure _

  pub prepare-Keeps : (payload : Fields) → Keeps P (prepare lib b payload)
  unfolding prepare replay_or_block
  prepare-Keeps payload =
      search (quiet_rules, validate_prepare_payload-Keeps, replay_over-Keeps, prepare_unless-Keeps)
        depth 12
