-- ===== src/Missions/Graph/Visits.antt =====
-- What one turn of the loop of `topological_steps` (solana_agent/missions/graph.py) does to the degrees,
-- the ready steps and the result, in numbers.
use solana_agent.Prelude.{
  ℕ, ◌+◌, ◌-◌, String, Bool, ◌==◌, ◌&&◌, List, [], ◌∷◌, ◌++◌, ◌≡◌, refl, inl, inr, leb, nat_eq,
  arith, eq_refl, Bool-cases,
}
use solana_agent.Missions.Graph.{
  Steps, Progress, dependents_of, sort_by_order, visit_dependent, visit_dependents, visit,
}
use solana_agent.Missions.Graph.Counts.{
  count, one_if, Text-cases, count-append, count-sort_by_order, count-dependents_of, depends_on_of,
}

-- Whether `n` decrements take a degree from above 0 to 0.
abbrev pub falls : ℕ → ℕ → ℕ
falls degree n = one_if (leb 1 degree && leb degree n)

module _ (steps : Steps) where
  visit_dependent-degree :
      (x d : String) (p : Progress)
      → (visit_dependent steps d p).degree x ≡ p.degree x - one_if (d == x)
  unfolding visit_dependent
  visit_dependent-degree x d p = elim (Text-cases d x) [
    | inl same ↦ rw same (rw (eq_refl x) refl)
    | inr (other, back) ↦ rw (other, back) (omega arith)
  ]

  visit_dependent-ready :
      (x d : String) (p : Progress)
      → count x (visit_dependent steps d p).ready
        ≡ count x p.ready + one_if (d == x && nat_eq (p.degree x) 1)
  unfolding visit_dependent
  visit_dependent-ready x d p = elim (Bool-cases (nat_eq (p.degree d) 1)) [
    | inl falls_now ↦ rw falls_now (elim (Text-cases d x) [
      | inl same ↦ ground (
        arith,
        count-sort_by_order steps x (p.ready ++ d ∷ []),
        count-append x p.ready (d ∷ []),
        eq_refl x,
        same,
        falls_now,
      )
      | inr (other, back) ↦ ground (
        arith,
        count-sort_by_order steps x (p.ready ++ d ∷ []),
        count-append x p.ready (d ∷ []),
        other,
      )
    ])
    | inr stays ↦ rw stays (elim (Text-cases d x) [
      | inl same ↦ ground (arith, eq_refl x, same, stays)
      | inr (other, back) ↦ ground (arith, other)
    ])
  ]

  visit_dependents-degree :
      (x : String) (ds : List String) (p : Progress)
      → (visit_dependents steps ds p).degree x ≡ p.degree x - count x ds
  unfolding visit_dependents
  visit_dependents-degree x [] p = omega arith
  visit_dependents-degree x (d ∷ ds) p = omega (
    arith,
    visit_dependents-degree x ds (visit_dependent steps d p),
    visit_dependent-degree x d p,
  )

  falls_once :
      (degree n : ℕ) (hit : Bool)
      → one_if (hit && nat_eq degree 1) + falls (degree - one_if hit) n
        ≡ falls degree (one_if hit + n)
  falls_once degree n hit = ground arith

  visit_dependents-ready :
      (x : String) (ds : List String) (p : Progress)
      → count x (visit_dependents steps ds p).ready
        ≡ count x p.ready + falls (p.degree x) (count x ds)
  unfolding visit_dependents
  visit_dependents-ready x [] p = ground arith
  visit_dependents-ready x (d ∷ ds) p =
      rw
        (
          visit_dependents-ready x ds (visit_dependent steps d p),
          visit_dependent-degree x d p,
          visit_dependent-ready x d p,
        )
        (omega (arith, falls_once (p.degree x) (count x ds) (d == x)))

  visit_dependents-result :
      (ds : List String) (p : Progress) → (visit_dependents steps ds p).result ≡ p.result
  unfolding visit_dependents visit_dependent
  visit_dependents-result [] p = refl
  visit_dependents-result (d ∷ ds) p = visit_dependents-result ds (visit_dependent steps d p)

  module _ (x id : String) (ready : List String) (p : Progress) where
    pub visit-degree :
        (visit steps id ready p).degree x ≡ p.degree x - count id (depends_on_of x steps)
    unfolding visit
    visit-degree =
        rw
          (
            visit_dependents-degree x (sort_by_order steps (dependents_of id steps)) _,
            count-sort_by_order steps x (dependents_of id steps),
            count-dependents_of x id steps,
          )
          refl

    pub visit-ready :
        count x (visit steps id ready p).ready
        ≡ count x ready + falls (p.degree x) (count id (depends_on_of x steps))
    unfolding visit
    visit-ready =
        rw
          (
            visit_dependents-ready x (sort_by_order steps (dependents_of id steps)) _,
            count-sort_by_order steps x (dependents_of id steps),
            count-dependents_of x id steps,
          )
          refl

  pub visit-result :
      (id : String) (ready : List String) (p : Progress)
      → (visit steps id ready p).result ≡ p.result ++ id ∷ []
  unfolding visit
  visit-result id ready p = visit_dependents-result _ _
