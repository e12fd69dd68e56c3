-- ===== src/Missions/Graph/Counts.antt =====
-- How often a text stands in the lists of solana_agent/missions/graph.py.
use solana_agent.Prelude.{
  ℕ, suc, ◌+◌, ◌≤◌, String, Bool, true, false, ◌==◌, none, List, [], ◌∷◌, ◌++◌, ◌≡◌, refl, ap, ◌⊎◌,
  inl, inr, leb, nat_eq, length, arith, eq_iff, eq_refl, Bool-cases, Option-cases, if◌then◌else◌,
  length-append,
}
use solana_agent.Contracts.Mission.{MissionStepDefinition}
use solana_agent.Missions.Graph.{
  Steps, ids_of, by_id, first_degree, order_index, insert_by_order, sort_by_order, dependents_by,
  dependents_of, ready_at_first,
}

-- The two sides of an equality test, both ways round.
pub Text-cases : (a b : String) → (a ≡ b) ⊎ ((a == b ≡ false) × (b == a ≡ false))
Text-cases a b = elim (Bool-cases (a == b)) [
  | inl same ↦ inl (ground (arith, eq_iff a b))
  | inr other ↦ inr (other, ground (arith, eq_iff a b, eq_iff b a, eq_refl a))
]

abbrev pub one_if : Bool → ℕ
one_if true = 1
one_if false = 0

abbrev pub count : String → List String → ℕ
count x [] = 0
count x (y ∷ ys) = one_if (y == x) + count x ys

pub count-append : (x : String) (ys zs : List String) → count x (ys ++ zs) ≡ count x ys + count x zs
count-append x [] zs = omega arith
count-append x (y ∷ ys) zs = omega (arith, count-append x ys zs)

module _ (steps : Steps) where
  count-insert_by_order :
      (x y : String) (zs : List String)
      → count x (insert_by_order steps y zs) ≡ one_if (y == x) + count x zs
  unfolding insert_by_order
  count-insert_by_order x y [] = refl
  count-insert_by_order x y (z ∷ zs) =
      elim (Bool-cases (leb (order_index y steps) (order_index z steps))) [
        | inl before ↦ rw before refl
        | inr later ↦ rw later (omega (arith, count-insert_by_order x y zs))
      ]

  pub count-sort_by_order :
      (x : String) (ys : List String) → count x (sort_by_order steps ys) ≡ count x ys
  unfolding sort_by_order
  count-sort_by_order x [] = refl
  count-sort_by_order x (y ∷ ys) =
      omega (arith, count-insert_by_order x y (sort_by_order steps ys), count-sort_by_order x ys)

-- A list without one of its texts.
abbrev remove : String → List String → List String
remove x [] = []
remove x (y ∷ ys) = if y == x then ys else y ∷ remove x ys

count-remove :
    (x y : String) (zs : List String)
    → 1 ≤ count y zs
    → count x zs ≡ one_if (y == x) + count x (remove y zs)
count-remove x y [] h = absurd (omega (arith, h))
count-remove x y (z ∷ zs) h = elim (Text-cases z y) [
  | inl same ↦ rw (same, eq_refl y) refl
  | inr (other, _) ↦ rw other (omega (arith, count-remove x y zs (ground (arith, h, other))))
]

length-remove :
    (y : String) (zs : List String) → 1 ≤ count y zs → length zs ≡ suc (length (remove y zs))
length-remove y [] h = absurd (omega (arith, h))
length-remove y (z ∷ zs) h = ground (arith, length-remove y zs)

-- A list that has no text more often than another is not longer.
pub length-count :
    (xs ys : List String) → ((x : String) → count x xs ≤ count x ys) → length xs ≤ length ys
length-count [] ys h = omega arith
length-count (x ∷ xs) ys h =
    let first : 1 ≤ count x ys = omega (arith, h x, ap one_if (eq_refl x)) in
    omega (
      arith,
      length-remove x ys first,
      length-count xs (remove x ys) (λ y. omega (arith, h y, count-remove y x ys first)),
    )

-- The dependencies of the steps that are named so.
unfoldable pub depends_on_of : String → Steps → List String
depends_on_of id [] = []
depends_on_of id (s ∷ ss) =
    let rest = depends_on_of id ss in if s.id == id then s.depends_on ++ rest else rest

count-dependents_by :
    (x id : String) (s : MissionStepDefinition) (ds : List String)
    → count x (dependents_by id s ds) ≡ (if s.id == x then count id ds else 0)
unfolding dependents_by
count-dependents_by x id s [] = elim (Bool-cases (s.id == x)) [
  | inl same ↦ rw same refl
  | inr other ↦ rw other refl
]
count-dependents_by x id s (d ∷ ds) = ground (arith, count-dependents_by x id s ds)

-- A step stands among the dependents of `id` as often as `id` among its dependencies.
pub count-dependents_of :
    (x id : String) (steps : Steps)
    → count x (dependents_of id steps) ≡ count id (depends_on_of x steps)
unfolding dependents_of depends_on_of
count-dependents_of x id [] = refl
count-dependents_of x id (s ∷ ss) = ground (
  arith,
  count-append x (dependents_by id s s.depends_on) (dependents_of id ss),
  count-append id s.depends_on (depends_on_of x ss),
  count-dependents_of x id ss,
  count-dependents_by x id s s.depends_on,
)

pub by_id-none :
    (x : String) (ss : Steps)
    → count x (ids_of ss) ≡ 0
    → (by_id x ss ≡ none) × (depends_on_of x ss ≡ [])
unfolding ids_of by_id depends_on_of
by_id-none x [] h = (refl, refl)
by_id-none x (s ∷ ss) h =
    let other : (s.id == x) ≡ false = ground (arith, h) in
    let rest : count x (ids_of ss) ≡ 0 = omega (arith, h) in
    let (missing, without) = by_id-none x ss rest in rw (missing, without, other) (refl, refl)

-- Where no identifier repeats, the first degree counts the dependencies.
pub first_degree-length :
    (x : String) (ss : Steps)
    → count x (ids_of ss) ≤ 1
    → first_degree ss x ≡ length (depends_on_of x ss)
unfolding ids_of by_id depends_on_of
first_degree-length x [] h = refl
first_degree-length x (s ∷ ss) h = elim (Bool-cases (s.id == x)) [
  | inl same ↦
      let rest : count x (ids_of ss) ≡ 0 = ground (arith, h, same) in
      let (missing, without) = by_id-none x ss rest in
      rw (missing, without, same) (omega (arith, length-append s.depends_on []))
  | inr other ↦
      let rest : count x (ids_of ss) ≤ 1 = omega (arith, h) in
      elim (Option-cases (by_id x ss)) [
        | inl missing ↦ rw (other, missing) (ground (arith, first_degree-length x ss rest, missing))
        | inr (t, found) ↦ rw (other, found) (ground (arith, first_degree-length x ss rest, found))
      ]
]

pub count-ready_at_first :
    (x : String) (degree : String → ℕ) (ids : List String)
    → count x (ready_at_first degree ids) ≡ (if nat_eq (degree x) 0 then count x ids else 0)
unfolding ready_at_first
count-ready_at_first x degree [] = ground arith
count-ready_at_first x degree (y ∷ ys) = elim (Text-cases y x) [
  | inl same ↦ rw same (ground (arith, count-ready_at_first x degree ys, eq_refl x))
  | inr (other, _) ↦ ground (arith, count-ready_at_first x degree ys, other)
]

-- A list that has no text more often than another, and is as long, has each as often.
pub count-equal :
    (xs ys : List String)
    → ((x : String) → count x xs ≤ count x ys)
    → length ys ≤ length xs
    → (x : String) → count x xs ≡ count x ys
count-equal [] [] h short x = refl
count-equal [] (y ∷ ys) h short x = absurd (omega (arith, short))
count-equal (z ∷ zs) ys h short x =
    let first : 1 ≤ count z ys = omega (arith, h z, ap one_if (eq_refl z)) in
    omega (
      arith,
      count-remove x z ys first,
      count-equal zs (remove z ys) (λ y. omega (arith, h y, count-remove y z ys first))
          (omega (arith, short, length-remove z ys first)) x,
    )
