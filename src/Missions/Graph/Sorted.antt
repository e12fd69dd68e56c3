-- ===== src/Missions/Graph/Sorted.antt =====
-- The steps that `topological_steps` returns (solana_agent/missions/graph.py), from their identifiers.
use mathlib.Core.List.{Memᴰ}
use solana_agent.Prelude.{
  ◌≤◌, String, true, false, ◌==◌, none, some, List, [], ◌∷◌, ◌++◌, ◌≡◌, refl, sym, ap, subst, inl,
  inr, All, arith, eq_iff, eq_refl, Bool, Bool-cases, leb, if◌then◌else◌,
}
use solana_agent.Contracts.Mission.{MissionStepDefinition}
use solana_agent.Missions.Graph.{Steps, ids_of, by_id, steps_named}
use solana_agent.Missions.Graph.Counts.{count, depends_on_of, by_id-none}
use solana_agent.Missions.Graph.Order.{IsOrdered}

abbrev pub names : Steps → List String
names [] = []
names (s ∷ ss) = s.id ∷ names ss

-- Each step comes after a step for each of its dependencies.
abbrev pub IsSorted : List String → Steps → Type 0
IsSorted before [] = Unit
IsSorted before (s ∷ ss) =
    All (λ d. 1 ≤ count d before) s.depends_on × IsSorted (before ++ s.id ∷ []) ss

pub names-ids_of : (ss : Steps) → names ss ≡ ids_of ss
unfolding ids_of
names-ids_of [] = refl
names-ids_of (s ∷ ss) = ap (λ xs. s.id ∷ xs) (names-ids_of ss)

-- A step that `by_id` finds.
record IsFound (id : String) (steps : Steps) : Type 0 where
  step : MissionStepDefinition
  found : by_id id steps ≡ some step
  named : step.id ≡ id
  among : Memᴰ step steps

IsFound-here :
    (id : String) (s : MissionStepDefinition) (ss : Steps)
    → by_id id ss ≡ none
    → s.id == id ≡ true
    → IsFound id (s ∷ ss)
unfolding by_id
IsFound-here id s ss missing same = record {
  step = s;
  found = rw missing (rw same refl);
  named = (eq_iff s.id id).0 same;
  among = Memᴰ.head refl;
}

IsFound-later :
    (id : String) (s : MissionStepDefinition) (ss : Steps) → IsFound id ss → IsFound id (s ∷ ss)
unfolding by_id
IsFound-later id s ss f = record {
  step = f.step;
  found = rw f.found refl;
  named = f.named;
  among = Memᴰ.tail f.among;
}

by_id-IsFound : (id : String) (ss : Steps) → 1 ≤ count id (ids_of ss) → IsFound id ss
unfolding ids_of
by_id-IsFound id [] h = absurd (omega (arith, h))
by_id-IsFound id (s ∷ ss) h = elim (Bool-cases (leb 1 (count id (ids_of ss)))) [
  | inl later ↦ IsFound-later id s ss (by_id-IsFound id ss (ground (arith, later)))
  | inr last ↦
      IsFound-here id s ss (by_id-none id ss (ground (arith, last))).0 (ground (arith, h, last))
]

module _ (P : String → Type 0) where
  All-append : (xs ys : List String) → All P (xs ++ ys) → All P xs × All P ys
  All-append [] ys all = (tt, all)
  All-append (x ∷ xs) ys all = let (left, right) = All-append xs ys all.1 in ((all.0, left), right)

  depends_on_of-All :
      (s : MissionStepDefinition) (ss : Steps)
      → Memᴰ s ss
      → All P (depends_on_of s.id ss)
      → All P s.depends_on
  unfolding depends_on_of
  depends_on_of-All s [] m all = elim m [ ]
  depends_on_of-All s (t ∷ ss) (Memᴰ.head e) all =
      subst (λ u. All P u.depends_on) (sym e)
        (All-append t.depends_on (depends_on_of t.id ss)
          (own (eq_refl t.id) (subst (λ u. All P (depends_on_of u.id (t ∷ ss))) e all))).0
    where
      own :
          {b : Bool}
          → b ≡ true
          → All P (if b then t.depends_on ++ depends_on_of t.id ss else depends_on_of t.id ss)
          → All P (t.depends_on ++ depends_on_of t.id ss)
      own same h =
          subst
            (λ b.
              All P (if b then t.depends_on ++ depends_on_of t.id ss else depends_on_of t.id ss))
            same h
  depends_on_of-All s (t ∷ ss) (Memᴰ.tail m) all =
      depends_on_of-All s ss m (others (t.id == s.id) all)
    where
      others :
          (b : Bool)
          → All P (if b then t.depends_on ++ depends_on_of s.id ss else depends_on_of s.id ss)
          → All P (depends_on_of s.id ss)
      others true h = (All-append t.depends_on (depends_on_of s.id ss) h).1
      others false h = h

steps_named-cons :
    (id : String) (ids : List String) (steps : Steps) (f : IsFound id steps)
    → steps_named steps (id ∷ ids) ≡ f.step ∷ steps_named steps ids
unfolding steps_named
steps_named-cons id ids steps f = rw (steps_named, f.found) refl

-- An order of identifiers gives an order of the steps.
pub steps_named-IsSorted :
    (steps : Steps) (before ids : List String)
    → IsOrdered steps before ids
    → ((x : String) → count x ids ≤ count x (ids_of steps))
    → IsSorted before (steps_named steps ids)
      × All (λ s. Memᴰ s steps) (steps_named steps ids)
      × (names (steps_named steps ids) ≡ ids)
unfolding IsOrdered steps_named
steps_named-IsSorted steps before [] ordered within = (tt, tt, refl)
steps_named-IsSorted steps before (id ∷ ids) ordered within =
    let f : IsFound id steps = by_id-IsFound id steps (ground (arith, within id, eq_refl id)) in
    let (sorted, among, same) =
      steps_named-IsSorted steps (before ++ id ∷ []) ids ordered.1 (λ x. omega (arith, within x)) in
    subst (λ ss. IsSorted before ss × All (λ s. Memᴰ s steps) ss × (names ss ≡ id ∷ ids))
      (sym (steps_named-cons id ids steps f))
      (
        (depends_on_of-All _ f.step steps f.among (rw f.named ordered.0), rw f.named sorted),
        (f.among, among),
        rw f.named (ap (λ xs. id ∷ xs) same),
      )
