-- ===== src/Evolution/Nsga/Crowding.antt =====
-- agent/nsga2.py: `assign_crowding_distance`, `nsga2_truncate` and `crowded_tournament_select`.
use continuous_agent.Prelude.{
  ℕ, ◌+◌, ◌-◌, Bool, not, Option, some, ◌>>=◌, List, [], ◌∷◌, ◌++◌, map, length, take, leb, ltb,
  ◌==◌, if◌then◌else◌,
}
use continuous_agent.Prelude.Int.{ℤ, pos, ◌-ℤ◌, leb_ℤ, ltb_ℤ}
use continuous_agent.Prelude.Sort.{sort_by}
use continuous_agent.Evolution.Nsga.{
  Distances, Nsga2Individual, set_distance, fast_non_dominated_sort,
}

module _ {D : Type 0} (distances : Distances D) where
  abbrev pub packing_key : Nsga2Individual D → ℤ
  packing_key x = x.packing_ratio

  abbrev pub fuel_key : Nsga2Individual D → ℤ
  fuel_key x = pos x.fuel_consumed

  abbrev pub last_key : (Nsga2Individual D → ℤ) → Nsga2Individual D → List (Nsga2Individual D) → ℤ
  last_key key p [] = key p
  last_key key p (q ∷ qs) = last_key key q qs

  -- `front[i].crowding_distance += (key(front[i + 1]) - key(front[i - 1])) / span` for the inner
  -- points, after the point `prev`, and `inf` for the last. Without `wide` only the latter.
  unfoldable pub spread :
      (Nsga2Individual D → ℤ)
      → Bool
      → ℤ
      → Nsga2Individual D
      → List (Nsga2Individual D)
      → List (Nsga2Individual D)
  spread key wide span prev [] = []
  spread key wide span prev (p ∷ []) = set_distance distances.infinite p ∷ []
  spread key wide span prev (p ∷ q ∷ qs) =
      (if wide
        then set_distance
            (distances.add p.crowding_distance (distances.quotient (key q -ℤ key prev) span)) p
        else p)
      ∷ spread key wide span p (q ∷ qs)

  -- One objective, on the sorted front; the span counts where it is above `tiny`.
  abbrev pub objective :
      (Nsga2Individual D → ℤ) → ℤ → List (Nsga2Individual D) → List (Nsga2Individual D)
  objective key tiny [] = []
  objective key tiny (p ∷ ps) =
      let span = last_key key p ps -ℤ key p in
      set_distance distances.infinite p ∷ spread key (ltb_ℤ tiny span) span p ps

  abbrev pub sort_key :
      (Nsga2Individual D → ℤ) → List (Nsga2Individual D) → List (Nsga2Individual D)
  sort_key key front = sort_by (λ x y. leb_ℤ (key x) (key y)) front

  -- The front as it is left, in the order of the second sort; `tiny` is 1e-9.
  unfoldable pub assign_crowding_distance : ℤ → List (Nsga2Individual D) → List (Nsga2Individual D)
  unfolding spread sort_by
  assign_crowding_distance tiny front =
      if leb (length front) 2
      then map (set_distance distances.infinite) front
      else objective fuel_key (pos 0) (
          sort_key fuel_key (
            objective packing_key tiny
              (sort_key packing_key (map (set_distance distances.none_yet) front))))

  -- `front.sort(key=lambda ind: ind.crowding_distance, reverse=True)`
  abbrev pub by_crowding : List (Nsga2Individual D) → List (Nsga2Individual D)
  by_crowding front =
      sort_by (λ x y. not (distances.gt y.crowding_distance x.crowding_distance)) front

  -- The loop over the fronts.
  unfoldable pub select :
      ℤ → ℕ → List (List (Nsga2Individual D)) → List (Nsga2Individual D) → List (Nsga2Individual D)
  unfolding assign_crowding_distance sort_by
  select tiny target_size [] survivors = survivors
  select tiny target_size (front ∷ fronts) survivors =
      let assigned = assign_crowding_distance tiny front in
      let rest = select tiny target_size fronts (survivors ++ assigned) in
      if leb (length survivors + length front) target_size
      then rest
      else survivors ++ take (target_size - length survivors) (by_crowding assigned)

  unfoldable pub nsga2_truncate :
      ℤ → List (Nsga2Individual D) → ℕ → Option (List (Nsga2Individual D))
  unfolding fast_non_dominated_sort select
  nsga2_truncate tiny population target_size =
      if leb (length population) target_size
      then some population
      else fast_non_dominated_sort population >>= λ fronts. some (select tiny target_size fronts [])

  -- `best` against one candidate.
  abbrev pub prefer : Nsga2Individual D → Nsga2Individual D → Nsga2Individual D
  prefer best candidate =
      if ltb candidate.rank best.rank
      then candidate
      else if candidate.rank == best.rank
      then if distances.gt candidate.crowding_distance best.crowding_distance
        then candidate
        else best
      else best

  -- `crowded_tournament_select`, on the sample that `random.sample` gave.
  unfoldable pub crowded_tournament_select :
      Nsga2Individual D → List (Nsga2Individual D) → Nsga2Individual D
  crowded_tournament_select best [] = best
  crowded_tournament_select best (c ∷ candidates) =
      crowded_tournament_select (prefer best c) candidates
