-- ===== src/Gateway/Solana/Preparations.antt =====
-- `PreparationStore` of gateway/solana_prepare.py.
use solana_agent.Prelude.{
  ℕ, String, Bool, true, false, not, ◌&&◌, ◌||◌, ◌==◌, Option, none, some, List, [], ◌∷◌, ltb,
  if◌then◌else◌,
}
use solana_agent.Json.{Json}
use solana_agent.Gateway.Solana.{
  World, Preparation, PreparationState, prepared, expired, Method, Raised, refusal, pure, raise,
  gets, modify, read_clock, whole, ◌>>=◌, ◌>>◌,
}
use solana_agent.Gateway.Solana.Library.{Library}

abbrev pub is_expired : PreparationState → Bool
is_expired prepared = false
is_expired expired = true

-- `WHERE execution_request_id = ? OR (obligation_id = ? AND state != 'expired')`
abbrev pub concerns : String → String → Preparation → Bool
concerns id obligation row =
    row.execution_request_id == id
    || (row.obligation_id == obligation && not (is_expired row.state))

unfoldable pub find_preparation : String → List Preparation → Option Preparation
find_preparation id [] = none
find_preparation id (row ∷ rows) =
    if row.execution_request_id == id then some row else find_preparation id rows

-- `SELECT * … WHERE execution_request_id = ?`
unfoldable pub get_preparation : String → Method (Option Preparation)
get_preparation id = gets (λ w. find_preparation id w.preparations)

abbrev pub expired_row : String → ℕ → Preparation → Preparation
expired_row id at row =
    if row.execution_request_id == id then record row { state = expired; updated_at = at } else row

unfoldable pub expire_rows : String → ℕ → List Preparation → List Preparation
expire_rows id at [] = []
expire_rows id at (row ∷ rows) = expired_row id at row ∷ expire_rows id at rows

unfoldable pub expire : String → Method (Unit {0})
unfolding expire_rows
expire id = do
  now ← read_clock
  modify (λ w. record w { preparations = expire_rows id (whole now) w.preparations })

-- The arguments of `save`, which is also a row to insert.
pub record Saved : Type 0 where
  pub execution_request_id : String
  pub obligation_id : String
  pub economic_plan_hash : String
  pub prepared_json : Json
  pub evidence_json : Json
  pub last_valid_block_height : ℕ

abbrev pub new_preparation : Saved → ℕ → Preparation
new_preparation s now = record {
  execution_request_id = s.execution_request_id;
  obligation_id = s.obligation_id;
  economic_plan_hash = s.economic_plan_hash;
  prepared_json = s.prepared_json;
  evidence_json = s.evidence_json;
  last_valid_block_height = s.last_valid_block_height;
  state = prepared;
  updated_at = now;
}

abbrev insert_preparation : Preparation → World → World
insert_preparation row w = record w { preparations = row ∷ w.preparations }

abbrev conflict_error : Raised
conflict_error =
    refusal "preparation_conflict"
      "execution_request_id or obligation_id already has a different preparation"

abbrev active_error : Raised
active_error =
    refusal "preparation_conflict"
      "execution_request_id or obligation_id already has an active preparation"

-- The row found is of the same request and the same plan.
abbrev pub replays : String → String → Preparation → Bool
replays id plan_hash row = row.execution_request_id == id && row.economic_plan_hash == plan_hash

module _ (lib : Library) where
  -- `ORDER BY updated_at DESC LIMIT 1`
  abbrev newer : Preparation → Option Preparation → Option Preparation
  newer row none = some row
  newer row (some other) =
      if ltb other.updated_at row.updated_at
      then some row
      else if ltb row.updated_at other.updated_at
      then some other
      else if lib.first_of_tie row other
      then some row
      else some other

  unfoldable pub newest_concerning : String → String → List Preparation → Option Preparation
  newest_concerning id obligation [] = none
  newest_concerning id obligation (row ∷ rows) =
      let rest = newest_concerning id obligation rows in
      if concerns id obligation row then newer row rest else rest

  -- `existing` of `save` and of `replay_or_block`
  unfoldable pub save_over : Saved → Option Preparation → Method Json
  save_over s (some row) =
      if replays s.execution_request_id s.economic_plan_hash row
      then pure row.prepared_json
      else raise conflict_error
  save_over s none = do
    now ← read_clock
    modify (insert_preparation (new_preparation s (whole now)))
    pure s.prepared_json

  unfoldable pub save : Saved → Method Json
  unfolding newest_concerning save_over
  save s = do
    existing ← gets (λ w. newest_concerning s.execution_request_id s.obligation_id w.preparations)
    save_over s existing

  unfoldable pub replay_over : String → String → Option Preparation → Method (Option Json)
  replay_over id plan_hash none = pure none
  replay_over id plan_hash (some row) =
      if replays id plan_hash row then pure (some row.prepared_json) else raise active_error

  unfoldable pub replay_or_block : String → String → String → Method (Option Json)
  unfolding newest_concerning replay_over
  replay_or_block id obligation plan_hash = do
    existing ← gets (λ w. newest_concerning id obligation w.preparations)
    replay_over id plan_hash existing
