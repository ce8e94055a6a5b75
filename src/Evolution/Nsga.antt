-- ===== src/Evolution/Nsga.antt =====
-- agent/nsga2.py: Pareto fronts, crowding distances and the truncation of a population.
pub mod Fronts
pub mod FirstFront
pub mod Crowding
pub mod Survivors
use continuous_agent.Prelude.{
  ℕ, zero, suc, ◌+◌, ◌-◌, ◌≤◌, min, String, str_eq, Bool, true, false, ◌&&◌, Option, none, some,
  ◌>>=◌, List, [], ◌∷◌, ◌++◌, map, length, take, leb, ltb, ◌==◌, if◌then◌else◌,
}
use continuous_agent.Prelude.Int.{ℤ, pos, negsuc, ◌+ℤ◌, ◌-ℤ◌, leb_ℤ}
use continuous_agent.Prelude.Maps.{find, store}
use continuous_agent.Evolution.{outperforms}
use mathlib.Core.Option.{get_or}

-- The distances: infinity, 0.0, a sum, the quotient of two integers, and Python's `>`.
pub record Distances (D : Type 0) : Type 0 where
  pub infinite : D
  pub none_yet : D
  pub add : D → D → D
  pub quotient : ℤ → ℤ → D
  pub gt : D → D → Bool

pub record Nsga2Individual (D : Type 0) : Type 0 where
  pub id : String
  pub code : String
  pub packing_ratio : ℤ
  pub fuel_consumed : ℕ
  pub phenotype_signature : String
  pub rank : ℕ
  pub crowding_distance : D

module _ {D : Type 0} where
  abbrev pub set_rank : ℕ → Nsga2Individual D → Nsga2Individual D
  set_rank r p = record {
    id = p.id;
    code = p.code;
    packing_ratio = p.packing_ratio;
    fuel_consumed = p.fuel_consumed;
    phenotype_signature = p.phenotype_signature;
    rank = r;
    crowding_distance = p.crowding_distance;
  }

  abbrev pub set_distance : D → Nsga2Individual D → Nsga2Individual D
  set_distance d p = record {
    id = p.id;
    code = p.code;
    packing_ratio = p.packing_ratio;
    fuel_consumed = p.fuel_consumed;
    phenotype_signature = p.phenotype_signature;
    rank = p.rank;
    crowding_distance = d;
  }

  unfoldable pub dominates : Nsga2Individual D → Nsga2Individual D → Bool
  dominates p q = outperforms p.packing_ratio p.fuel_consumed q.packing_ratio q.fuel_consumed

  -- `dominated_sets[id]`
  abbrev pub set_of : String → List (String × List (Nsga2Individual D)) → List (Nsga2Individual D)
  set_of id sets = get_or (find id sets) []

  -- The inner loop of the first pass, for one `p`: the entries of its id in the two dictionaries.
  abbrev pub compare_one :
      Nsga2Individual D
      → Nsga2Individual D
      → List (Nsga2Individual D) × ℤ
      → List (Nsga2Individual D) × ℤ
  compare_one p q (dominated, count) =
      if dominates p q
      then (dominated ++ q ∷ [], count)
      else if dominates q p
      then (dominated, count +ℤ pos 1)
      else (dominated, count)

  unfoldable pub compare_with :
      Nsga2Individual D
      → List (Nsga2Individual D)
      → List (Nsga2Individual D) × ℤ
      → List (Nsga2Individual D) × ℤ
  unfolding dominates
  compare_with p [] s = s
  compare_with p (q ∷ qs) s = compare_with p qs (compare_one p q s)

-- `domination_counts[id]`
abbrev pub count_of : String → List (String × ℤ) → ℤ
count_of id counts = get_or (find id counts) (pos 0)

abbrev pub is_zero : ℤ → Bool
is_zero z = leb_ℤ z (pos 0) && leb_ℤ (pos 0) z

-- The dictionaries of the sort, and the front that it fills.
pub record Tables (D : Type 0) : Type 0 where
  pub domination_counts : List (String × ℤ)
  pub dominated_sets : List (String × List (Nsga2Individual D))
  pub front : List (Nsga2Individual D)

module _ {D : Type 0} where
  -- The round of the first pass for `p`.
  abbrev pub classify : List (Nsga2Individual D) → Nsga2Individual D → Tables D → Tables D
  classify population p t =
      let (dominated, count) =
        compare_with p population
          (set_of p.id t.dominated_sets, count_of p.id t.domination_counts) in
      record {
        domination_counts = store p.id count t.domination_counts;
        dominated_sets = store p.id dominated t.dominated_sets;
        front = if is_zero count then t.front ++ set_rank 1 p ∷ [] else t.front;
      }

  unfoldable pub first_pass :
      List (Nsga2Individual D) → List (Nsga2Individual D) → Tables D → Tables D
  unfolding compare_with
  first_pass population [] t = t
  first_pass population (p ∷ ps) t = first_pass population ps (classify population p t)

  -- `for q in dominated_sets[p.id]`, with the counts and `next_front`.
  abbrev pub release_one :
      ℕ
      → Nsga2Individual D
      → List (String × ℤ) × List (Nsga2Individual D)
      → List (String × ℤ) × List (Nsga2Individual D)
  release_one i q (counts, next_front) =
      let count = count_of q.id counts -ℤ pos 1 in
      (
        store q.id count counts,
        if is_zero count then next_front ++ set_rank (i + 2) q ∷ [] else next_front,
      )

  unfoldable pub release :
      ℕ
      → List (Nsga2Individual D)
      → List (String × ℤ) × List (Nsga2Individual D)
      → List (String × ℤ) × List (Nsga2Individual D)
  release i [] s = s
  release i (q ∷ qs) s = release i qs (release_one i q s)

  -- `for p in fronts[i]`
  unfoldable pub release_front :
      ℕ
      → List (String × List (Nsga2Individual D))
      → List (Nsga2Individual D)
      → List (String × ℤ) × List (Nsga2Individual D)
      → List (String × ℤ) × List (Nsga2Individual D)
  unfolding release
  release_front i sets [] s = s
  release_front i sets (p ∷ ps) s = release_front i sets ps (release i (set_of p.id sets) s)

  -- The `while` loop, on fuel; `none` when it runs out. The empty last front is not kept.
  unfoldable pub peel :
      ℕ
      → ℕ
      → List (String × List (Nsga2Individual D))
      → List (String × ℤ)
      → List (Nsga2Individual D)
      → Option (List (List (Nsga2Individual D)))
  unfolding release_front
  peel fuel i sets counts [] = some []
  peel zero i sets counts (p ∷ ps) = none
  peel (suc fuel) i sets counts (p ∷ ps) =
      let (counts', next_front) = release_front i sets (p ∷ ps) (counts, []) in
      peel fuel (suc i) sets counts' next_front >>= λ fronts. some ((p ∷ ps) ∷ fronts)

  -- The fuel is enough: see `Nsga/Fronts`.
  unfoldable pub fast_non_dominated_sort :
      List (Nsga2Individual D) → Option (List (List (Nsga2Individual D)))
  unfolding first_pass peel
  fast_non_dominated_sort population =
      let t =
        first_pass population population
          (record { domination_counts = []; dominated_sets = []; front = [] }) in
      peel (suc (length population)) 0 t.dominated_sets t.domination_counts t.front
