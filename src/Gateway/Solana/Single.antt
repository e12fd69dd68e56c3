-- ===== src/Gateway/Solana/Single.antt =====
-- How often the Solana backend asks the RPC to send a transaction for one request and for one
-- authorization (gateway/solana_execute.py), whatever commands come in and wherever a process dies.
pub mod Execute
use solana_agent.Prelude.{
  ℕ, String, Bool, true, false, ◌||◌, ◌==◌, Option, none, some, List, [], ◌∷◌, ◌≡◌, ◌∙◌, refl, sym,
  subst, any, ◌⊎◌, inl, inr, arith, Option-cases, Bool-cases, if◌then◌else◌,
}
use solana_agent.Json.{Json, get, get_key}
use solana_agent.Gateway.Solana.{World, Attempt, whole, ◌>>=◌}
use solana_agent.Gateway.Solana.Keeps.{Leads}
use solana_agent.Gateway.Solana.Attempts.{
  Claim, claim, claim_over, find_claimed, update_rows, new_attempt,
}
use solana_agent.Gateway.Solana.Sent.{sends, sends-other, send_request}
use solana_agent.Gateway.Solana.Quiet.{IsUpdate, IsQuiet}

-- Two attempts share their request or their authorization.
abbrev shares : Attempt → Attempt → Bool
shares r o =
    o.execution_request_id == r.execution_request_id || o.authorization_id == r.authorization_id

abbrev pub AreUnique : List Attempt → Type 0
AreUnique [] = Unit
AreUnique (row ∷ rows) = (any (shares row) rows ≡ false) × AreUnique rows

-- Each request to send asks to send the transaction of a row of its own.
abbrev pub AreBacked : List Json → List Attempt → Type 0
AreBacked [] rows = Unit
AreBacked (p ∷ ps) [] = ⊥
AreBacked (p ∷ ps) (row ∷ rows) =
    ((p ≡ send_request row.signed_transaction_base64) × AreBacked ps rows) ⊎ AreBacked (p ∷ ps) rows

pub record IsSingle (w : World) : Type 0 where
  pub unique : AreUnique w.attempts
  pub backed : AreBacked (sends w.posted) w.attempts

-- The newest row is that of a claim, and nothing was sent for it.
pub record IsClaimed (c : Claim) (w : World) : Type 0 where
  pub now_single : IsSingle w
  pub row : Attempt
  pub rows : List Attempt
  pub newest : w.attempts ≡ row ∷ rows
  pub transaction : row.signed_transaction_base64 ≡ c.signed_transaction_base64
  pub unsent : AreBacked (sends w.posted) rows

AreBacked-more :
    (ps : List Json) (row : Attempt) (rows : List Attempt)
    → AreBacked ps rows
    → AreBacked ps (row ∷ rows)
AreBacked-more [] row rows h = tt
AreBacked-more (p ∷ ps) row rows h = inr h

module _ (selected : Attempt → Bool) (change : Attempt → Attempt) (u : IsUpdate change) where
  abbrev updated : Attempt → Attempt
  updated row = if selected row then change row else row

  updated-keeps :
      (row : Attempt)
      → let new = if selected row then change row else row in
        (new.execution_request_id ≡ row.execution_request_id)
        × (new.authorization_id ≡ row.authorization_id)
        × (new.signed_transaction_base64 ≡ row.signed_transaction_base64)
  updated-keeps row = elim (Bool-cases (selected row)) [
    | inl hit ↦ rw hit (u.request row, u.authorization row, u.transaction row)
    | inr miss ↦ rw miss (refl, refl, refl)
  ]

  any-update_rows :
      (row new : Attempt) (rows : List Attempt)
      → new.execution_request_id ≡ row.execution_request_id
      → new.authorization_id ≡ row.authorization_id
      → any (shares new) (update_rows selected change rows) ≡ any (shares row) rows
  unfolding update_rows
  any-update_rows row new [] request authorization = refl
  any-update_rows row new (o ∷ rows) request authorization =
      let (same_request, same_authorization, same) = updated-keeps o in
      rw
        (
          same_request,
          same_authorization,
          request,
          authorization,
          any-update_rows row new rows request authorization,
        )
        refl

  update_rows-AreUnique :
      (rows : List Attempt) → AreUnique rows → AreUnique (update_rows selected change rows)
  unfolding update_rows
  update_rows-AreUnique [] h = tt
  update_rows-AreUnique (row ∷ rows) h =
      let (request, authorization, same) = updated-keeps row in
      (
        any-update_rows row (updated row) rows request authorization ∙ h.0,
        update_rows-AreUnique rows h.1,
      )

  update_rows-AreBacked :
      (ps : List Json) (rows : List Attempt)
      → AreBacked ps rows
      → AreBacked ps (update_rows selected change rows)
  unfolding update_rows
  update_rows-AreBacked [] rows h = tt
  update_rows-AreBacked (p ∷ ps) [] h = absurd h
  update_rows-AreBacked (p ∷ ps) (row ∷ rows) (inl (same, h)) =
      let (request, authorization, transaction) = updated-keeps row in
      inl (rw transaction same, update_rows-AreBacked ps rows h)
  update_rows-AreBacked (p ∷ ps) (row ∷ rows) (inr h) = inr (update_rows-AreBacked (p ∷ ps) rows h)

-- A claim that finds no row shares nothing with the rows.
find_claimed-none :
    (c : Claim) (at : ℕ) (rows : List Attempt)
    → find_claimed c.execution_request_id c.authorization_id rows ≡ none
    → any (shares (new_attempt c at)) rows ≡ false
unfolding find_claimed
find_claimed-none c at [] h = refl
find_claimed-none c at (row ∷ rows) h = ground (arith, find_claimed-none c at rows)

pub IsSingle-IsQuiet : IsQuiet IsSingle
IsSingle-IsQuiet = record {
  clock = λ w c h. record { unique = h.unique; backed = h.backed };
  posted = λ w p other h. record {
    unique = h.unique;
    backed = rw (sends-other p w.posted other) h.backed;
  };
  expired = λ w id at h. record { unique = h.unique; backed = h.backed };
  inserted = λ w s at none_concerned h. record { unique = h.unique; backed = h.backed };
  attempts = λ w selected change u h. record {
    unique = update_rows-AreUnique selected change u w.attempts h.unique;
    backed = update_rows-AreBacked selected change u (sends w.posted) w.attempts h.backed;
  };
}

module _ (c : Claim) where
  IsClaimed-new_attempt :
      (at : ℕ) (w : World)
      → find_claimed c.execution_request_id c.authorization_id w.attempts ≡ none
      → IsSingle w
      → IsClaimed c (record w { attempts = new_attempt c at ∷ w.attempts })
  IsClaimed-new_attempt at w missing h = record {
    now_single = record {
      unique = (find_claimed-none c at w.attempts missing, h.unique);
      backed = AreBacked-more (sends w.posted) (new_attempt c at) w.attempts h.backed;
    };
    row = new_attempt c at;
    rows = w.attempts;
    newest = refl;
    transaction = refl;
    unsent = h.backed;
  }

  -- After a claim its transaction may be sent.
  pub IsClaimed-sent :
      (w : World)
      → IsClaimed c w
      → IsSingle (record w { posted = send_request c.signed_transaction_base64 ∷ w.posted })
  unfolding get_key get
  IsClaimed-sent w h = record {
    unique = h.now_single.unique;
    backed =
        subst (AreBacked (send_request c.signed_transaction_base64 ∷ sends w.posted)) (sym h.newest)
          (inl (rw h.transaction refl, h.unsent));
  }

  pub claim-IsClaimed : (now : ℕ) → Leads IsSingle (IsClaimed c) IsSingle (claim c now)
  unfolding claim claim_over ◌>>=◌
  claim-IsClaimed now = record {
    at = λ w h.
        elim (Option-cases (find_claimed c.execution_request_id c.authorization_id w.attempts)) [
          | inl missing ↦ rw missing (IsClaimed-new_attempt (whole now) w missing h)
          | inr (row, found) ↦ rw found h
        ];
  }

  pub IsClaimed-IsSingle : (w : World) → IsClaimed c w → IsSingle w
  IsClaimed-IsSingle w h = h.now_single
