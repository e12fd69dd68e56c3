-- ===== src/Missions/Graph/Order.antt =====
-- The order that `topological_steps` (solana_agent/missions/graph.py) gives to the steps of a mission.
use solana_agent.Prelude.{
  ℕ, ◌+◌, ◌-◌, ◌≤◌, String, ◌==◌, List, [], ◌∷◌, ◌++◌, ◌≡◌, refl, ap, sym, ◌∙◌, inl, inr, All,
  nat_eq, length, arith, eq_refl, if◌then◌else◌,
}
use solana_agent.Missions.Graph.{
  Steps, ids_of, Progress, ready_at_first, first_degree, first_progress, visit,
}
use solana_agent.Missions.Graph.Counts.{
  count, one_if, Text-cases, count-append, count-sort_by_order, count-ready_at_first, depends_on_of,
  first_degree-length,
}
use solana_agent.Missions.Graph.Visits.{falls, visit-degree, visit-ready, visit-result}

-- How many of the dependencies are not among the steps that are done.
pub open_count : List String → List String → ℕ
open_count done [] = 0
open_count done (d ∷ ds) = one_if (nat_eq (count d done) 0) + open_count done ds

open_count-snoc :
    (id : String) (done ds : List String)
    → count id done ≡ 0
    → open_count done ds ≡ open_count (done ++ id ∷ []) ds + count id ds
unfolding open_count
open_count-snoc id done [] h = omega arith
open_count-snoc id done (d ∷ ds) h = elim (Text-cases d id) [
  | inl same ↦
      rw same (
        ground (arith, count-append id done (id ∷ []), eq_refl id, open_count-snoc id done ds h, h))
  | inr (other, back) ↦
      ground (arith, count-append d done (id ∷ []), open_count-snoc id done ds h, other, back)
]

open_count-nothing : (ds : List String) → open_count [] ds ≡ length ds
unfolding open_count
open_count-nothing [] = refl
open_count-nothing (d ∷ ds) = omega (arith, open_count-nothing ds)

open_count-zero : (done ds : List String) → open_count done ds ≡ 0 → All (λ d. 1 ≤ count d done) ds
unfolding open_count
open_count-zero done [] h = tt
open_count-zero done (d ∷ ds) h = (ground (arith, h), open_count-zero done ds (ground (arith, h)))

module _ (steps : Steps) where
  -- Each text's dependencies are among the texts before it.
  unfoldable pub IsOrdered : List String → List String → Type 0
  IsOrdered before [] = Unit
  IsOrdered before (x ∷ xs) =
      All (λ d. 1 ≤ count d before) (depends_on_of x steps) × IsOrdered (before ++ x ∷ []) xs

  All-weaken :
      (f g : String → ℕ) (ds : List String)
      → ((d : String) → 1 ≤ f d → 1 ≤ g d)
      → All (λ d. 1 ≤ f d) ds
      → All (λ d. 1 ≤ g d) ds
  All-weaken f g [] more all = tt
  All-weaken f g (d ∷ ds) more all = (more d all.0, All-weaken f g ds more all.1)

  IsOrdered-snoc :
      (before xs : List String) (y : String)
      → IsOrdered before xs
      → All (λ d. 1 ≤ count d before + count d xs) (depends_on_of y steps)
      → IsOrdered before (xs ++ y ∷ [])
  unfolding IsOrdered
  IsOrdered-snoc before [] y ordered all =
      (All-weaken _ _ (depends_on_of y steps) (λ d h. omega (arith, h)) all, tt)
  IsOrdered-snoc before (x ∷ xs) y ordered all = (
    ordered.0,
    IsOrdered-snoc (before ++ x ∷ []) xs y ordered.1 (
        All-weaken _ _ (depends_on_of y steps)
          (λ d h. omega (arith, h, count-append d before (x ∷ []))) all),
  )

  -- What holds of the degrees, the ready steps and the result between two turns of the loop.
  pub record IsSound (p : Progress) : Type 0 where
    pub degrees : (x : String) → p.degree x ≡ open_count p.result (depends_on_of x steps)
    pub once :
        (x : String)
        → count x p.ready + count x p.result
          ≡ (if nat_eq (p.degree x) 0 then count x (ids_of steps) else 0)
    pub ordered : IsOrdered [] p.result

  count-depends_on_of :
      (x d : String) (ss : Steps) → 1 ≤ count d (depends_on_of x ss) → 1 ≤ count x (ids_of ss)
  unfolding depends_on_of ids_of
  count-depends_on_of x d [] h = h
  count-depends_on_of x d (s ∷ ss) h = ground (arith, h, count-depends_on_of x d ss)

  falls_arith :
      (rest result hit degree c ids : ℕ)
      → hit + rest + result ≡ (if nat_eq degree 0 then ids else 0)
      → (1 ≤ c → 1 ≤ ids)
      → ids ≤ 1
      → rest + falls degree c + (result + hit) ≡ (if nat_eq (degree - c) 0 then ids else 0)
  falls_arith rest result hit degree c ids h named unique = ground (arith, h, named, unique)

  module _ (unique : (x : String) → count x (ids_of steps) ≤ 1) where
    pub first_progress-IsSound : IsSound (first_progress steps)
    unfolding first_progress IsOrdered
    first_progress-IsSound = record {
      degrees = λ x.
          first_degree-length x steps (unique x) ∙ sym (open_count-nothing (depends_on_of x steps));
      once = λ x. omega (
        arith,
        count-sort_by_order steps x (ready_at_first (first_degree steps) (ids_of steps)),
        count-ready_at_first x (first_degree steps) (ids_of steps),
      );
      ordered = tt;
    }

    -- A ready step is not done, and none of its dependencies is open.
    ready-fresh :
        (id : String) (ready : List String) (p : Progress)
        → p.ready ≡ id ∷ ready
        → IsSound p
        → (count id p.result ≡ 0) × (p.degree id ≡ 0)
    ready-fresh id ready p next sound =
        let total = sound.once id in
        let listed : count id p.ready ≡ one_if (id == id) + count id ready = rw next refl in
        (
          ground (arith, total, listed, eq_refl id, unique id),
          ground (arith, total, listed, eq_refl id),
        )

    pub visit-IsSound :
        (id : String) (ready : List String) (p : Progress)
        → p.ready ≡ id ∷ ready
        → IsSound p
        → IsSound (visit steps id ready p)
    visit-IsSound id ready p next sound =
        let (fresh, free) = ready-fresh id ready p next sound in
        record {
          degrees = λ x. rw (visit-result steps id ready p) (
              omega (
                arith,
                visit-degree steps x id ready p,
                sound.degrees x,
                open_count-snoc id p.result (depends_on_of x steps) fresh,
              ));
          once = λ x.
              rw
                (
                  visit-result steps id ready p,
                  visit-degree steps x id ready p,
                  visit-ready steps x id ready p,
                  count-append x p.result (id ∷ []),
                )
                (falls_arith (count x ready) (count x p.result) (one_if (id == x) + 0) (p.degree x)
                  (count id (depends_on_of x steps)) (count x (ids_of steps))
                  (omega (arith, sound.once x, ap (count x) next)) (count-depends_on_of x id steps)
                  (unique x));
          ordered = rw (visit-result steps id ready p) (
              IsOrdered-snoc [] p.result id sound.ordered (
                All-weaken _ _ (depends_on_of id steps) (λ d h. omega (arith, h))
                  (open_count-zero p.result (depends_on_of id steps)
                    (sym (sound.degrees id) ∙ free))));
        }
