-- ===== src/Missions/Graph.antt =====
-- solana_agent/missions/graph.py. A dict from step identifiers to numbers is a function.
pub mod Counts
pub mod Visits
pub mod Order
pub mod Sorted
pub mod Total
use solana_agent.Prelude.{
  ℕ, zero, suc, ◌+◌, ◌-◌, String, Bool, true, false, not, ◌&&◌, ◌||◌, ◌==◌, Option, none, some,
  List, [], ◌∷◌, ◌++◌, map, leb, nat_eq, ltb, any, length, joined, if◌then◌else◌,
}
use solana_agent.Prelude.Int.{pos, ltb_ℤ}
use solana_agent.Contracts.Mission.{MissionDefinition, MissionStepDefinition}
use solana_agent.Exec.{Error, mission_graph_error, Result, ok, err}
use solana_agent.Authority.Approvals.{is_blank}
use solana_agent.Gateway.Protocol.{is_in, sorted_missing}

abbrev pub Steps : Type 0
Steps = List MissionStepDefinition

unfoldable pub ids_of : Steps → List String
ids_of [] = []
ids_of (s ∷ ss) = s.id ∷ ids_of ss

-- `{step.id: … for step in mission.steps}[id]`: the last step of that name
unfoldable pub by_id : String → Steps → Option MissionStepDefinition
by_id id [] = none
by_id id (s ∷ ss) = elim (by_id id ss) [
  | some t ↦ some t
  | none ↦ if s.id == id then some s else none
]

-- `order_index[id]`
unfoldable pub order_index : String → Steps → ℕ
order_index id [] = 0
order_index id (s ∷ ss) =
    let rest = order_index id ss in if any (λ t. t.id == id) ss then suc rest else 0

abbrev Degree : Type 0
Degree = String → ℕ

abbrev degree_of : Option MissionStepDefinition → ℕ
degree_of none = 0
degree_of (some s) = length s.depends_on

-- `indegree` before the loop
abbrev pub first_degree : Steps → Degree
first_degree steps id = degree_of (by_id id steps)

abbrev pub put_degree : String → ℕ → Degree → Degree
put_degree id n degree x = if x == id then n else degree x

-- `sorted(…, key=lambda item: order_index[item])`, which is stable
unfoldable pub insert_by_order : Steps → String → List String → List String
insert_by_order steps id [] = id ∷ []
insert_by_order steps id (x ∷ xs) =
    let rest = insert_by_order steps id xs in
    if leb (order_index id steps) (order_index x steps) then id ∷ x ∷ xs else x ∷ rest

unfoldable pub sort_by_order : Steps → List String → List String
sort_by_order steps [] = []
sort_by_order steps (x ∷ xs) = insert_by_order steps x (sort_by_order steps xs)

-- What one step adds to `dependents[id]`
unfoldable pub dependents_by : String → MissionStepDefinition → List String → List String
dependents_by id s [] = []
dependents_by id s (d ∷ ds) =
    let rest = dependents_by id s ds in if d == id then s.id ∷ rest else rest

-- `dependents[id]` of a step
unfoldable pub dependents_of : String → Steps → List String
dependents_of id [] = []
dependents_of id (s ∷ ss) = dependents_by id s s.depends_on ++ dependents_of id ss

unfoldable pub ready_at_first : Degree → List String → List String
ready_at_first degree [] = []
ready_at_first degree (id ∷ ids) =
    let rest = ready_at_first degree ids in if nat_eq (degree id) 0 then id ∷ rest else rest

pub record Progress : Type 0 where
  pub degree : Degree
  pub ready : List String
  pub result : List String

-- One turn of the inner loop. A degree becomes 0 where it was 1; where it was 0 the source's goes
-- below it, and never back to 0.
unfoldable pub visit_dependent : Steps → String → Progress → Progress
visit_dependent steps id p = record p {
  degree = put_degree id (p.degree id - 1) p.degree;
  ready = if nat_eq (p.degree id) 1 then sort_by_order steps (p.ready ++ id ∷ []) else p.ready;
}

unfoldable pub visit_dependents : Steps → List String → Progress → Progress
visit_dependents steps [] p = p
visit_dependents steps (d ∷ ds) p = visit_dependents steps ds (visit_dependent steps d p)

-- One turn of the outer loop, for the first ready step.
unfoldable pub visit : Steps → String → List String → Progress → Progress
visit steps id ready p =
    visit_dependents steps (sort_by_order steps (dependents_of id steps))
      (record p { ready = ready; result = p.result ++ id ∷ [] })

-- `while ready`, on fuel
unfoldable pub visit_ready : Steps → List String → Progress → Progress
visit_ready steps [] p = p
visit_ready steps (id ∷ ready) p = visit steps id ready p

unfoldable pub loop : ℕ → Steps → Progress → Progress
loop zero steps p = p
loop (suc fuel) steps p = loop fuel steps (visit_ready steps p.ready p)

unfoldable pub first_progress : Steps → Progress
first_progress steps = record {
  degree = first_degree steps;
  ready = sort_by_order steps (ready_at_first (first_degree steps) (ids_of steps));
  result = [];
}

-- The loop ends within as many turns as there are steps (Graph/Order.antt).
unfoldable pub topological_progress : Steps → Progress
topological_progress steps = loop (length steps) steps (first_progress steps)

unfoldable pub steps_named : Steps → List String → Steps
steps_named steps [] = []
steps_named steps (id ∷ ids) = elim (by_id id steps) [
  | none ↦ steps_named steps ids
  | some s ↦ s ∷ steps_named steps ids
]

unfoldable pub cyclic : Degree → List String → List String
cyclic degree [] = []
cyclic degree (id ∷ ids) =
    let rest = cyclic degree ids in if ltb 0 (degree id) then id ∷ rest else rest

-- `sorted(set(a) - b)`
abbrev once : List String → List String
once [] = []
once (x ∷ xs) = let rest = once xs in if is_in xs x then rest else x ∷ rest

abbrev distinct_missing : List String → List String → List String
distinct_missing a b = sorted_missing (once a) b

-- A call whose result is dropped.
abbrev pub without_value : Result Steps → Result (Unit {0})
without_value (ok steps) = ok tt
without_value (err e) = err e

-- `list_text` is `str` of a list of texts.
module _ (list_text : List String → String) where
  unfoldable pub topological_steps : Steps → Result Steps
  topological_steps steps =
      let p = topological_progress steps in
      if nat_eq (length p.result) (length steps)
      then ok (steps_named steps p.result)
      else err (
          mission_graph_error (
            joined (
              "mission contains a dependency cycle: "
              ∷ list_text (sorted_missing (cyclic p.degree (ids_of steps)) [])
              ∷ [])))

  unfoldable pub has_duplicate : List String → Bool
  has_duplicate [] = false
  has_duplicate (id ∷ ids) = is_in ids id || has_duplicate ids

  -- The body of the loop over the steps: what it raises.
  unfoldable pub step_fault : List String → MissionStepDefinition → Option String
  step_fault known s =
      let missing = distinct_missing s.depends_on known in
      if is_blank s.id || (is_blank s.adapter || is_blank s.operation)
      then some "step id, adapter, and operation must not be empty"
      else if not (ltb_ℤ (pos 0) s.timeout_seconds)
      then some (joined ("step " ∷ s.id ∷ " timeout must be greater than zero" ∷ []))
      else if nat_eq (length missing) 0
      then (if is_in s.depends_on s.id
          then some (joined ("step " ∷ s.id ∷ " cannot depend on itself" ∷ []))
          else none)
      else some (joined ("step " ∷ s.id ∷ " has unknown dependencies: " ∷ list_text missing ∷ []))

  unfoldable pub first_fault : List String → Steps → Option String
  first_fault known [] = none
  first_fault known (s ∷ ss) = elim (step_fault known s) [
    | some message ↦ some message
    | none ↦ first_fault known ss
  ]

  unfoldable pub validate_mission_graph : MissionDefinition → Result (Unit {0})
  validate_mission_graph m =
      if is_blank m.id || (is_blank m.version || is_blank m.goal)
      then err (mission_graph_error "mission id, version, and goal must not be empty")
      else if nat_eq (length m.steps) 0
      then err (mission_graph_error "mission must define at least one step")
      else if has_duplicate (ids_of m.steps)
      then err (mission_graph_error "mission step ids must be unique")
      else elim (first_fault (ids_of m.steps) m.steps) [
        | some message ↦ err (mission_graph_error message)
        | none ↦ without_value (topological_steps m.steps)
      ]
