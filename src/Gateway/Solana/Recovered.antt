-- ===== src/Gateway/Solana/Recovered.antt =====
-- What the recovery of an attempt lets a caller do (gateway/solana_execute.py).
use solana_agent.Prelude.{true, false, ◌≡◌, refl}
use solana_agent.Gateway.Solana.{World, Preparation, Attempt, AttemptState, failed, confirmed, ok}
use solana_agent.Gateway.Solana.Library.{Library, SolanaBackend}
use solana_agent.Gateway.Solana.Refresh.{
  Recovery, recover_unseen, recover_refreshed, recover_attempt,
}
use solana_agent.Gateway.Solana.Calls.{Yields, Yields-pure, Yields-if, Yields-bind, Yields-skip}

-- The caller may make the transaction again only after a failure.
abbrev OnlyFailed : AttemptState → Recovery → Type 0
OnlyFailed state r =
    r.may_rematerialize ≡ true
    → (state ≡ failed) × (r.state ≡ failed) × (r.outcome ≡ "recovered_failed")

held : {A : Type 0} → false ≡ true → A
held h = absurd (cc)

module _ (lib : Library) (b : SolanaBackend) where
  recover_unseen-Yields :
      (row : Preparation) (refreshed : Attempt) (state : AttemptState)
      → Yields (OnlyFailed state) (recover_unseen lib b row refreshed)
  unfolding recover_unseen
  recover_unseen-Yields row refreshed state = Yields-skip _ _ (λ height.
      Yields-if _ _ _ (Yields-skip _ _ (λ now. Yields-skip _ _ (λ u. Yields-pure _ held)))
        (Yields-pure _ held))

  recover_refreshed-Yields :
      (row : Preparation) (refreshed : Attempt) (state : AttemptState)
      → Yields (OnlyFailed state) (recover_refreshed lib b row refreshed state)
  unfolding recover_refreshed
  recover_refreshed-Yields row refreshed confirmed = Yields-pure _ held
  recover_refreshed-Yields row refreshed failed = Yields-pure _ (λ h. (refl, refl, refl))
  recover_refreshed-Yields row refreshed _ =
      Yields-if _ _ _ (Yields-pure _ held) (recover_unseen-Yields row refreshed _)

  recover_attempt-Yields :
      (row : Preparation) (attempt : Attempt)
      → Yields (λ r. OnlyFailed r.0.state r.1) (recover_attempt lib b row attempt)
  unfolding recover_attempt
  recover_attempt-Yields row attempt = Yields-skip _ _ (λ refreshed.
      Yields-bind _ _ (recover_refreshed-Yields row refreshed refreshed.state)
        (λ r only_failed. Yields-pure _ only_failed))

  -- Where the recovery of an attempt lets the caller make the transaction again, the refreshed attempt
  -- has failed, and the recovery says so.
  pub recover_attempt-failed :
      (row : Preparation) (attempt refreshed : Attempt) (r : Recovery) (w : World)
      → (recover_attempt lib b row attempt w).0 ≡ ok (refreshed, r)
      → r.may_rematerialize ≡ true
      → (refreshed.state ≡ failed) × (r.state ≡ failed) × (r.outcome ≡ "recovered_failed")
  recover_attempt-failed row attempt refreshed r w returned again =
      (recover_attempt-Yields row attempt).at w (refreshed, r) returned again
