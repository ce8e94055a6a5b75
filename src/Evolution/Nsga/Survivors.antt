-- ===== src/Evolution/Nsga/Survivors.antt =====
-- agent/nsga2.py: how many individuals `nsga2_truncate` keeps, and that the best front is kept.
use continuous_agent.Prelude.{
  ℕ, suc, ◌+◌, ◌-◌, ◌≤◌, ◌<◌, ◌≡◌, refl, sym, ap, ◌∙◌, min, Bool, Bool-cases, false, some, List, [],
  ◌∷◌, ◌++◌, append-nil, append_assoc, map, length, length-append, length-map, length-take, take,
  leb, leb→le, arith, ◌⊎◌, inl, inr,
}
use continuous_agent.Prelude.Int.{ℤ, pos}
use continuous_agent.Prelude.Sort.{length-sort_by}
use continuous_agent.Evolution.Nsga.{
  Distances, Nsga2Individual, set_distance, fast_non_dominated_sort,
}
use continuous_agent.Evolution.Nsga.Fronts.{fast_non_dominated_sort-terminates}
use continuous_agent.Evolution.Nsga.FirstFront.{first_of}
use continuous_agent.Evolution.Nsga.Crowding.{
  packing_key, fuel_key, spread, objective, sort_key, assign_crowding_distance, by_crowding, select,
  nsga2_truncate,
}

module _ {D : Type 0} (distances : Distances D) where
  length-spread :
      (key : Nsga2Individual D → ℤ) (wide : Bool) (span : ℤ) (prev : Nsga2Individual D)
      (ps : List (Nsga2Individual D))
      → length (spread distances key wide span prev ps) ≡ length ps
  unfolding spread
  length-spread key wide span prev [] = refl
  length-spread key wide span prev (p ∷ []) = refl
  length-spread key wide span prev (p ∷ q ∷ qs) = ap suc (length-spread key wide span p (q ∷ qs))

  length-objective :
      (key : Nsga2Individual D → ℤ) (tiny : ℤ) (ps : List (Nsga2Individual D))
      → length (objective distances key tiny ps) ≡ length ps
  length-objective key tiny [] = refl
  length-objective key tiny (p ∷ ps) = ap suc (length-spread key _ _ p ps)

  length-assign :
      (tiny : ℤ) (front : List (Nsga2Individual D))
      → length (assign_crowding_distance distances tiny front) ≡ length front
  unfolding assign_crowding_distance
  length-assign tiny front = elim (Bool-cases (leb (length front) 2)) [
    | inl e ↦ rw e (length-map front (set_distance distances.infinite))
    | inr e ↦
        let zeroed = map (set_distance distances.none_yet) front in
        let first =
          objective distances (packing_key distances) tiny
            (sort_key distances (packing_key distances) zeroed) in
        rw e (
          length-objective (fuel_key distances) (pos 0)
            (sort_key distances (fuel_key distances) first)
          ∙ length-sort_by _ first
          ∙ length-objective (packing_key distances) tiny
              (sort_key distances (packing_key distances) zeroed)
          ∙ length-sort_by _ zeroed
          ∙ length-map front (set_distance distances.none_yet))
  ]

  -- The individuals of all fronts.
  abbrev pub size_of : List (List (Nsga2Individual D)) → ℕ
  size_of [] = 0
  size_of (front ∷ fronts) = length front + size_of fronts

  length-select :
      (tiny : ℤ) (target : ℕ) (fronts : List (List (Nsga2Individual D)))
      (survivors : List (Nsga2Individual D))
      → length survivors ≤ target
      → length (select distances tiny target fronts survivors)
        ≡ min target (length survivors + size_of fronts)
  unfolding select
  length-select tiny target [] survivors h = omega arith
  length-select tiny target (front ∷ fronts) survivors h =
      let assigned = assign_crowding_distance distances tiny front in
      let kept = take (target - length survivors) (by_crowding distances assigned) in
      let same = length-assign tiny front in
      elim (Bool-cases (leb (length survivors + length front) target)) [
        | inl e ↦
            let grown = length-append survivors assigned in
            rw e (
              omega (
                arith,
                length-select tiny target fronts (survivors ++ assigned) (omega (arith, leb→le)),
                leb→le,
              ))
        | inr e ↦
            let over : target ≤ length survivors + length front = ground arith in
            rw e (
              omega (
                arith,
                length-append survivors kept,
                length-take (target - length survivors) (by_crowding distances assigned),
                length-sort_by _ assigned,
              ))
      ]

  select-prefix :
      (tiny : ℤ) (target : ℕ) (fronts : List (List (Nsga2Individual D)))
      (survivors : List (Nsga2Individual D))
      → (rest : List (Nsga2Individual D)) × (select distances tiny target fronts survivors
          ≡ survivors ++ rest)
  unfolding select
  select-prefix tiny target [] survivors = ([], sym (append-nil survivors))
  select-prefix tiny target (front ∷ fronts) survivors =
      elim (Bool-cases (leb (length survivors + length front) target)) [
        | inl e ↦
            let (rest, later) =
              select-prefix tiny target fronts
                (survivors ++ assign_crowding_distance distances tiny front) in
            rw e (
              _,
              later ∙ append_assoc survivors (assign_crowding_distance distances tiny front) rest,
            )
        | inr e ↦ rw e (_, refl)
      ]

  -- The survivors, by the undominated individuals of the population: all of them first, if they fit,
  -- and otherwise the best of them by crowding distance.
  abbrev pub Prefers : ℤ → ℕ → List (Nsga2Individual D) → List (Nsga2Individual D) → Type 0
  Prefers tiny target best survivors =
      ((length best ≤ target)
        × ((rest : List (Nsga2Individual D)) × (survivors
              ≡ assign_crowding_distance distances tiny best ++ rest)))
      ⊎ ((target < length best)
          × (length survivors ≡ target)
          × (survivors
              ≡ take target (by_crowding distances (assign_crowding_distance distances tiny best))))

  select-Prefers :
      (tiny : ℤ) (target : ℕ) (fronts : List (List (Nsga2Individual D)))
      → Prefers tiny target (first_of fronts) (select distances tiny target fronts [])
  unfolding select
  select-Prefers tiny target [] = inl (omega arith, ([], refl))
  select-Prefers tiny target (front ∷ fronts) = elim (Bool-cases (leb (0 + length front) target)) [
    | inl e ↦ inl (
      ground arith,
      rw e (select-prefix tiny target fronts (assign_crowding_distance distances tiny front)),
    )
    | inr e ↦
        let kept = by_crowding distances (assign_crowding_distance distances tiny front) in
        let over : target < length front = ground arith in
        let many : length (take target kept) ≡ target = omega (
          arith,
          length-take target kept,
          length-sort_by _ (assign_crowding_distance distances tiny front),
          length-assign tiny front,
        ) in
        let whole : target - 0 ≡ target = omega arith in
        inr (over, rw (e, whole) many, rw (e, whole) refl)
  ]

  pub nsga2_truncate-survivors :
      (tiny : ℤ) (population : List (Nsga2Individual D)) (target_size : ℕ)
      → leb (length population) target_size ≡ false
      → (fronts : List (List (Nsga2Individual D))) × (survivors : List (Nsga2Individual D))
        × (fast_non_dominated_sort population ≡ some fronts)
        × (nsga2_truncate distances tiny population target_size ≡ some survivors)
        × (length survivors ≡ min target_size (size_of fronts))
        × Prefers tiny target_size (first_of fronts) survivors
  unfolding nsga2_truncate
  nsga2_truncate-survivors tiny population target large =
      let (fronts, sorted) = fast_non_dominated_sort-terminates population in
      (
        fronts,
        select distances tiny target fronts [],
        sorted,
        rw (large, sorted) refl,
        omega (arith, length-select tiny target fronts [] (omega arith)),
        select-Prefers tiny target fronts,
      )
