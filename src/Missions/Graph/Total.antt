-- ===== src/Missions/Graph/Total.antt =====
-- The end of the loop of `topological_steps` (solana_agent/missions/graph.py), and what it has then.
use mathlib.Core.List.{Memᴰ}
use solana_agent.Prelude.{
  ℕ, zero, suc, ◌+◌, ◌≤◌, String, false, ◌==◌, List, [], ◌∷◌, ◌≡◌, refl, sym, ap, All, ◌∙◌, ◌⊎◌,
  inl, inr, nat_eq, length, arith, eq_iff, eq_refl, Bool-cases, if◌then◌else◌, length-append,
}
use solana_agent.Contracts.Mission.{MissionDefinition}
use solana_agent.Exec.{Result, ok, err}
use solana_agent.Gateway.Protocol.{is_in}
use solana_agent.Missions.Graph.{
  Steps, ids_of, Progress, first_progress, visit, visit_ready, loop, topological_progress,
  has_duplicate, steps_named, topological_steps, validate_mission_graph, without_value,
}
use solana_agent.Missions.Graph.Counts.{
  Text-cases, count, one_if, depends_on_of, length-count, count-equal,
}
use solana_agent.Missions.Graph.Sorted.{names, IsSorted, names-ids_of, steps_named-IsSorted}
use solana_agent.Missions.Graph.Visits.{visit-result}
use solana_agent.Missions.Graph.Order.{open_count, IsSound, first_progress-IsSound, visit-IsSound}

List-cases : (xs : List String) → (xs ≡ []) ⊎ ((y : String) × (ys : List String) × (xs ≡ y ∷ ys))
List-cases [] = inl refl
List-cases (y ∷ ys) = inr (y, ys, refl)

length-ids_of : (ss : Steps) → length (ids_of ss) ≡ length ss
unfolding ids_of
length-ids_of [] = refl
length-ids_of (s ∷ ss) = omega (arith, length-ids_of ss)

-- No two steps have one identifier.
abbrev pub IsUnique : Steps → Type 0
IsUnique steps = (x : String) → count x (ids_of steps) ≤ 1

is_in-count : (x : String) (ys : List String) → is_in ys x ≡ false → count x ys ≡ 0
is_in-count x [] h = refl
is_in-count x (y ∷ ys) h = ground (arith, h, is_in-count x ys, eq_iff x y, eq_iff y x, eq_refl x)

module _ (list_text : List String → String) where
  has_duplicate-count :
      (ids : List String) → has_duplicate list_text ids ≡ false → (x : String) → count x ids ≤ 1
  unfolding has_duplicate
  has_duplicate-count [] h x = omega arith
  has_duplicate-count (id ∷ ids) h x =
      let fresh : is_in ids id ≡ false = ground (arith, h) in
      let rest : has_duplicate list_text ids ≡ false = ground (arith, h) in
      elim (Text-cases id x) [
        | inl same ↦ omega (
          arith,
          ap one_if (ap (λ y. y == x) same ∙ eq_refl x),
          is_in-count id ids fresh,
          ap (λ y. count y ids) same,
        )
        | inr (other, back) ↦ omega (arith, ap one_if other, has_duplicate-count ids rest x)
      ]

module _ (steps : Steps) (unique : IsUnique steps) where
  visit_ready-IsSound :
      (ready : List String) (p : Progress)
      → p.ready ≡ ready
      → IsSound steps p
      → IsSound steps (visit_ready steps ready p)
  unfolding visit_ready
  visit_ready-IsSound [] p next sound = sound
  visit_ready-IsSound (id ∷ ready) p next sound = visit-IsSound steps unique id ready p next sound

  loop-IsSound : (fuel : ℕ) (p : Progress) → IsSound steps p → IsSound steps (loop fuel steps p)
  unfolding loop
  loop-IsSound zero p sound = sound
  loop-IsSound (suc fuel) p sound =
      loop-IsSound fuel (visit_ready steps p.ready p) (visit_ready-IsSound p.ready p refl sound)

  visit_ready-nothing :
      (ready : List String) (p : Progress) → ready ≡ [] → visit_ready steps ready p ≡ p
  unfolding visit_ready
  visit_ready-nothing [] p done = refl
  visit_ready-nothing (id ∷ ready) p done = absurd (cc)

  visit_ready-next :
      (all : List String) (p : Progress) {id : String} {ready : List String}
      → all ≡ id ∷ ready
      → visit_ready steps all p ≡ visit steps id ready p
  unfolding visit_ready
  visit_ready-next all p next = rw next refl

  loop-done : (fuel : ℕ) (p : Progress) → p.ready ≡ [] → (loop fuel steps p).ready ≡ []
  unfolding loop
  loop-done zero p done = done
  loop-done (suc fuel) p done =
      rw (loop, visit_ready-nothing p.ready p done) (loop-done fuel p done)

  result-count :
      (x : String) (p : Progress) → IsSound steps p → count x p.result ≤ count x (ids_of steps)
  result-count x p sound = ground (arith, sound.once x)

  loop-still : (fuel : ℕ) (p : Progress) → p.ready ≡ [] → loop fuel steps p ≡ p
  unfolding loop
  loop-still zero p done = refl
  loop-still (suc fuel) p done =
      rw (loop, visit_ready-nothing p.ready p done) (loop-still fuel p done)

  -- While a step is ready, the result is shorter than the list of the steps.
  length-result :
      (id : String) (ready : List String) (p : Progress)
      → p.ready ≡ id ∷ ready
      → IsSound steps p
      → suc (length p.result) ≤ length steps
  length-result id ready p next sound = omega (
    arith,
    length-ids_of steps,
    length-count (id ∷ p.result) (ids_of steps) (λ x. listed x (sound.once x) (ap (count x) next)),
  )
    where
      listed :
          (x : String)
          → count x p.ready + count x p.result
            ≡ (if nat_eq (p.degree x) 0 then count x (ids_of steps) else 0)
          → count x p.ready ≡ one_if (id == x) + count x ready
          → one_if (id == x) + count x p.result ≤ count x (ids_of steps)
      listed x total next_count = ground (arith, total, next_count)

  loop-ends :
      (fuel : ℕ) (p : Progress)
      → IsSound steps p
      → length steps ≤ length p.result + fuel
      → (loop fuel steps p).ready ≡ []
  unfolding loop
  loop-ends zero p sound enough = elim (List-cases p.ready) [
    | inl done ↦ done
    | inr (id, ready, next) ↦ absurd (omega (arith, enough, length-result id ready p next sound))
  ]
  loop-ends (suc fuel) p sound enough = elim (List-cases p.ready) [
    | inl done ↦ rw (loop, visit_ready-nothing p.ready p done) (loop-done fuel p done)
    | inr (id, ready, next) ↦
        rw (loop, visit_ready-next p.ready p next)
          (loop-ends fuel _ (visit-IsSound steps unique id ready p next sound) (
            omega (
              arith,
              enough,
              length-append p.result (id ∷ []),
              ap length (visit-result steps id ready p),
            )))
  ]

  progress-IsSound : IsSound steps (topological_progress steps)
  unfolding topological_progress
  progress-IsSound = loop-IsSound (length steps) _ (first_progress-IsSound steps unique)

  progress-ends : (topological_progress steps).ready ≡ []
  unfolding topological_progress first_progress
  progress-ends = loop-ends (length steps) _ (first_progress-IsSound steps unique) (omega arith)

-- Without two steps of one identifier, the loop of `topological_steps` ends: after as many turns as
-- there are steps no step is ready, and more turns change nothing. Every step then is in the result,
-- or has a dependency that is not.
pub topological_progress-ends :
    (list_text : List String → String) (steps : Steps)
    → has_duplicate list_text (ids_of steps) ≡ false
    → let p = topological_progress steps in
      (p.ready ≡ [])
      × ((more : ℕ) → loop more steps p ≡ p)
      × ((x : String)
          → (count x p.result ≡ count x (ids_of steps))
            ⊎ (1 ≤ open_count p.result (depends_on_of x steps)))
topological_progress-ends list_text steps distinct =
    let unique : IsUnique steps = has_duplicate-count list_text (ids_of steps) distinct in
    let p = topological_progress steps in
    let ends : p.ready ≡ [] = progress-ends steps unique in
    let sound : IsSound steps p = progress-IsSound steps unique in
    (
      ends,
      λ more. loop-still steps unique more p ends,
      λ x. elim (Bool-cases (nat_eq (p.degree x) 0)) [
        | inl free ↦ inl (ground (arith, sound.once x, ap (count x) ends, free))
        | inr held ↦ inr (ground (arith, sound.degrees x, held))
      ],
    )

topological_steps-ok :
    (list_text : List String → String) (steps : Steps) {r : Steps}
    → topological_steps list_text steps ≡ ok r
    → (length (topological_progress steps).result ≡ length steps)
      × (r ≡ steps_named steps (topological_progress steps).result)
unfolding topological_steps
topological_steps-ok list_text steps h =
    elim (Bool-cases (nat_eq (length (topological_progress steps).result) (length steps))) [
      | inl whole ↦ (ground (arith, whole), ground (arith, whole, h))
      | inr short ↦ absurd (ground (arith, short, h))
    ]

without_value-ok : (x : Result Steps) → without_value x ≡ ok tt → (r : Steps) × (x ≡ ok r)
without_value-ok (ok r) h = (r, refl)
without_value-ok (err e) h = absurd (cc)

validate_mission_graph-ok :
    (list_text : List String → String) (m : MissionDefinition)
    → validate_mission_graph list_text m ≡ ok tt
    → (has_duplicate list_text (ids_of m.steps) ≡ false)
      × (without_value (topological_steps list_text m.steps) ≡ ok tt)
unfolding validate_mission_graph
validate_mission_graph-ok list_text m h = ground (arith, h)

-- Where `validate_mission_graph` accepts a mission, `topological_steps` returns steps of the mission, as
-- many of each identifier as the mission has, each one after steps for all that it depends on.
pub validate_mission_graph-IsOrdered :
    (list_text : List String → String) (m : MissionDefinition)
    → validate_mission_graph list_text m ≡ ok tt
    → (r : Steps) × (topological_steps list_text m.steps ≡ ok r)
      × IsSorted [] r
      × All (λ s. Memᴰ s m.steps) r
      × ((x : String) → count x (names r) ≡ count x (names m.steps))
validate_mission_graph-IsOrdered list_text m h =
    let (distinct, accepted) = validate_mission_graph-ok list_text m h in
    let (r, returned) = without_value-ok (topological_steps list_text m.steps) accepted in
    let unique : IsUnique m.steps = has_duplicate-count list_text (ids_of m.steps) distinct in
    let p = topological_progress m.steps in
    let sound : IsSound m.steps p = progress-IsSound m.steps unique in
    let (whole, named) = topological_steps-ok list_text m.steps returned in
    let counted : (x : String) → count x p.result ≡ count x (ids_of m.steps) =
      count-equal p.result (ids_of m.steps) (λ x. result-count m.steps unique x p sound)
        (omega (arith, whole, length-ids_of m.steps)) in
    let (sorted, among, same) =
      steps_named-IsSorted m.steps [] p.result sound.ordered (λ x. omega (arith, counted x)) in
    (
      steps_named m.steps p.result,
      returned ∙ ap ok named,
      sorted,
      among,
      λ x. ap (count x) same ∙ (counted x ∙ ap (count x) (sym (names-ids_of m.steps))),
    )
