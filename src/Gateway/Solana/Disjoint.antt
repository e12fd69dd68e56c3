-- ===== src/Gateway/Solana/Disjoint.antt =====
-- The preparations of the store (`PreparationStore`, gateway/solana_prepare.py) among themselves.
use solana_agent.Prelude.{
  ℕ, String, Bool, false, not, ◌&&◌, ◌||◌, ◌==◌, List, [], ◌∷◌, ◌≡◌, refl, any, arith, inl, inr,
  Bool-cases,
}
use solana_agent.Gateway.Solana.{World, Preparation}
use solana_agent.Gateway.Solana.Preparations.{
  Saved, concerns, is_expired, new_preparation, expired_row, expire_rows,
}
use solana_agent.Gateway.Solana.Quiet.{IsQuiet}
use solana_agent.Gateway.Solana.Loose.{IsLoose}

-- Two rows of one request, or two active ones of one obligation.
abbrev clashes : Preparation → Preparation → Bool
clashes r o =
    o.execution_request_id == r.execution_request_id
    || (o.obligation_id == r.obligation_id
        && (not (is_expired o.state) && not (is_expired r.state)))

abbrev pub AreDisjoint : List Preparation → Type 0
AreDisjoint [] = Unit
AreDisjoint (r ∷ rs) = (any (clashes r) rs ≡ false) × AreDisjoint rs

-- A new row clashes only with a row that the query of `save` finds.
not_concerned :
    (s : Saved) (at : ℕ) (rows : List Preparation)
    → any (concerns s.execution_request_id s.obligation_id) rows ≡ false
    → any (clashes (new_preparation s at)) rows ≡ false
not_concerned s at [] h = refl
not_concerned s at (row ∷ rows) h = ground (arith, not_concerned s at rows)

-- Rows that expire clash with no more rows than before.
abbrev now_expired : Bool → Bool → Bool
now_expired hit e = hit || e

clashes_less :
    (same obligation e f hit hit' : Bool)
    → same || (obligation && (not e && not f)) ≡ false
    → same || (obligation && (not (now_expired hit e) && not (now_expired hit' f))) ≡ false
clashes_less same obligation e f hit hit' h = ground arith

expired_row-state :
    (id : String) (at : ℕ) (row : Preparation)
    → is_expired (expired_row id at row).state
      ≡ now_expired (row.execution_request_id == id) (is_expired row.state)
expired_row-state id at row = elim (Bool-cases (row.execution_request_id == id)) [
  | inl same ↦ rw same refl
  | inr other ↦ rw other refl
]

expired_row-names :
    (id : String) (at : ℕ) (row : Preparation)
    → ((expired_row id at row).execution_request_id ≡ row.execution_request_id)
      × ((expired_row id at row).obligation_id ≡ row.obligation_id)
expired_row-names id at row = elim (Bool-cases (row.execution_request_id == id)) [
  | inl same ↦ rw same (refl, refl)
  | inr other ↦ rw other (refl, refl)
]

clashes-expired_row :
    (id : String) (at : ℕ) (r o : Preparation)
    → clashes r o ≡ false
    → clashes (expired_row id at r) (expired_row id at o) ≡ false
clashes-expired_row id at r o h =
    rw
      (
        expired_row-state id at r,
        expired_row-state id at o,
        (expired_row-names id at r).0,
        (expired_row-names id at r).1,
        (expired_row-names id at o).0,
        (expired_row-names id at o).1,
      )
      (clashes_less _ _ _ _ _ _ h)

or_false : (a b : Bool) → a || b ≡ false → (a ≡ false) × (b ≡ false)
or_false a b h = (ground arith, ground arith)

clashes-expire_rows :
    (id : String) (at : ℕ) (r : Preparation) (rows : List Preparation)
    → any (clashes r) rows ≡ false
    → any (clashes (expired_row id at r)) (expire_rows id at rows) ≡ false
unfolding expire_rows
clashes-expire_rows id at r [] h = refl
clashes-expire_rows id at r (row ∷ rows) h =
    let (first, rest) = or_false (clashes r row) (any (clashes r) rows) h in
    rw (clashes-expired_row id at r row first, clashes-expire_rows id at r rows rest) refl

expire_rows-AreDisjoint :
    (id : String) (at : ℕ) (rows : List Preparation)
    → AreDisjoint rows
    → AreDisjoint (expire_rows id at rows)
unfolding expire_rows
expire_rows-AreDisjoint id at [] h = tt
expire_rows-AreDisjoint id at (row ∷ rows) h =
    (clashes-expire_rows id at row rows h.0, expire_rows-AreDisjoint id at rows h.1)

abbrev pub HasDisjoint : World → Type 0
HasDisjoint w = AreDisjoint w.preparations

pub HasDisjoint-IsQuiet : IsQuiet HasDisjoint
HasDisjoint-IsQuiet = record {
  clock = λ w c h. h;
  posted = λ w p quiet h. h;
  expired = λ w id at h. expire_rows-AreDisjoint id at w.preparations h;
  inserted = λ w s at free h. (not_concerned s at w.preparations free, h);
  attempts = λ w selected change u h. h;
}

pub HasDisjoint-IsLoose : IsLoose HasDisjoint
HasDisjoint-IsLoose = record { untried = record { attempts = λ w rows h. h }; posted = λ w ps h. h }
