-- ===== src/FunSearch/Restart.antt =====
-- agent/funsearch_service.py: whom `execute_cataclysmic_restart` keeps, and that an island stays
-- within its capacity.
use continuous_agent.Prelude.{
  ℕ, true, ◌≤◌, ◌≡◌, refl, ap, min, Bool-cases, false, some, List, [], ◌∷◌, ◌++◌, length, leb, ltb,
  map, arith, inl, inr,
}
use continuous_agent.Prelude.Int.{ℤ}
use continuous_agent.Evolution.Nsga.{Distances, Nsga2Individual}
use continuous_agent.Evolution.Nsga.Fronts.{fast_non_dominated_sort-terminates}
use continuous_agent.Evolution.Nsga.FirstFront.{Distinct, undominated, first_front-undominated}
use continuous_agent.Evolution.Nsga.Survivors.{size_of, nsga2_truncate-survivors}
use continuous_agent.FunSearch.{
  FunSearchIsland, get_pareto_front, latest, join, with_individuals, fresh, register_heuristic,
}

module _ {D : Type 0} (p : Nsga2Individual D) (ps : List (Nsga2Individual D)) where
  -- The fronts that the sort makes of the individuals `p ∷ ps`.
  abbrev pub all_fronts : List (List (Nsga2Individual D))
  all_fronts = (fast_non_dominated_sort-terminates (p ∷ ps)).0

  pub get_pareto_front-undominated :
      Distinct (p ∷ ps)
      → get_pareto_front (p ∷ ps)
        ≡ some (undominated (p ∷ ps) (p ∷ ps), map (latest (join all_fronts)) (p ∷ ps))
  unfolding get_pareto_front
  get_pareto_front-undominated distinct =
      let (fronts, sorted) = fast_non_dominated_sort-terminates (p ∷ ps) in
      rw sorted (
        ap (λ front. some (front, map (latest (join fronts)) (p ∷ ps)))
          (first_front-undominated (p ∷ ps) fronts distinct sorted))

module _ {D : Type 0} (distances : Distances D) (tiny : ℤ) where
  abbrev pub WithinCapacity : FunSearchIsland D → Type 0
  WithinCapacity s = length s.individuals ≤ s.max_capacity

  shorter : (n k m : ℕ) → n ≡ min k m → n ≤ k
  shorter n k m e = omega arith

  pub register_heuristic-WithinCapacity :
      (p : Nsga2Individual D) (s : FunSearchIsland D)
      → (s' : FunSearchIsland D) × (register_heuristic distances tiny p s ≡ some s')
        × WithinCapacity s'
        × (s'.island_id ≡ s.island_id)
        × (s'.max_capacity ≡ s.max_capacity)
  unfolding register_heuristic
  register_heuristic-WithinCapacity p s =
      let grown = s.individuals ++ fresh distances tiny p ∷ [] in
      elim (Bool-cases (ltb s.max_capacity (length grown))) [
        | inl e ↦
            let (fronts, survivors, sorted, truncated, few, kept) =
              nsga2_truncate-survivors distances tiny grown s.max_capacity
                (too_long (length grown) s.max_capacity e) in
            (
              with_individuals survivors s,
              rw e (rw truncated refl),
              shorter (length survivors) s.max_capacity (size_of distances fronts) few,
              refl,
              refl,
            )
        | inr e ↦
            (with_individuals grown s, rw e refl, fits (length grown) s.max_capacity e, refl, refl)
      ]
    where
      too_long : (n k : ℕ) → ltb k n ≡ true → leb n k ≡ false
      too_long n k e = ground arith

      fits : (n k : ℕ) → ltb k n ≡ false → n ≤ k
      fits n k e = ground arith
