-- ===== src/Tests/Missions.antt =====
-- The theorems on the graph of a mission, with a mission of three steps.
use mathlib.Core.List.{Memᴰ}
use solana_agent.Prelude.{ℕ, String, ◌≡◌, ◌≤◌, All, refl, ◌⊎◌, List, [], ◌∷◌, joined}
use solana_agent.Prelude.Int.{pos}
use solana_agent.Json.{dict}
use solana_agent.Contracts.Mission.{MissionDefinition, MissionStepDefinition}
use solana_agent.Authority.Approvals.{is_blank}
use solana_agent.Gateway.Protocol.{sorted_missing}
use solana_agent.Exec.{ok}
use solana_agent.Missions.Graph.{
  Steps, ids_of, loop, has_duplicate, first_fault, step_fault, topological_steps, visit_ready,
  first_progress, sort_by_order, ready_at_first, by_id, insert_by_order, visit, visit_dependents,
  dependents_by, dependents_of, order_index, visit_dependent, topological_progress,
  validate_mission_graph,
}
use solana_agent.Missions.Graph.Counts.{count, depends_on_of}
use solana_agent.Missions.Graph.Order.{open_count}
use solana_agent.Missions.Graph.Sorted.{names, IsSorted}
use solana_agent.Missions.Graph.Total.{topological_progress-ends, validate_mission_graph-IsOrdered}

abbrev step : String → List String → MissionStepDefinition
step id depends_on = record {
  id = id;
  adapter = "anchor";
  operation = "build";
  depends_on = depends_on;
  arguments = dict [];
  cwd = "/work";
  timeout_seconds = pos 60;
  preconditions = [];
  acceptance = [];
}

abbrev steps : Steps
steps = step "test" ("build" ∷ "init" ∷ []) ∷ step "init" [] ∷ step "build" ("init" ∷ []) ∷ []

abbrev mission : MissionDefinition
mission = record { id = "m"; version = "1"; goal = "ship"; inputs = []; steps = steps }

accepted : validate_mission_graph joined mission ≡ ok tt
unfolding validate_mission_graph is_blank has_duplicate ids_of first_fault step_fault sorted_missing
    topological_steps topological_progress loop visit_ready first_progress sort_by_order
    ready_at_first by_id insert_by_order visit visit_dependents dependents_by dependents_of
    order_index visit_dependent
accepted = refl

validate_mission_graph-IsOrdered_example :
    (r : Steps) × (topological_steps joined steps ≡ ok r)
    × IsSorted [] r
    × All (λ s. Memᴰ s steps) r
    × ((x : String) → count x (names r) ≡ count x (names steps))
validate_mission_graph-IsOrdered_example = validate_mission_graph-IsOrdered joined mission accepted

-- Two steps that wait for each other.
abbrev cycle : Steps
cycle = step "a" ("b" ∷ []) ∷ step "b" ("a" ∷ []) ∷ step "c" [] ∷ []

topological_progress-ends_example :
    let p = topological_progress cycle in
    (p.ready ≡ [])
    × ((more : ℕ) → loop more cycle p ≡ p)
    × ((x : String)
        → (count x p.result ≡ count x (ids_of cycle))
          ⊎ (1 ≤ open_count p.result (depends_on_of x cycle)))
unfolding has_duplicate ids_of
topological_progress-ends_example = topological_progress-ends joined cycle refl
