-- ===== src/Evolution/Examples.antt =====
-- Tests of the fronts, the profiles and the islands.
use continuous_agent.Prelude.{
  ℕ, suc, ◌+◌, ◌*◌, ◌≤◌, ◌<◌, ◌≡◌, ◌⊎◌, refl, String, Bool, false, none, some, List, [], ◌∷◌, map,
  length, ltb, arith,
}
use continuous_agent.Prelude.Int.{ℤ, pos, negsuc, leb_ℤ, pos_part, ◌≤ℤ◌}
use continuous_agent.Prelude.Maps.{differ}
use continuous_agent.Evolution.Frontier.{HeuristicPoint, compute_pareto_frontier}
use continuous_agent.Evolution.Frontier.Optimal.{
  All, Any, Covers, outperforms_point, compute_pareto_frontier-optimal,
}
use continuous_agent.Evolution.Health.{Evaluation, IslandHealth, fitness_of, profile_island}
use continuous_agent.Evolution.Health.Verdict.{IsSound, profile_island-IsSound}
use continuous_agent.Evolution.Nsga.{Distances, Nsga2Individual, fast_non_dominated_sort}
use continuous_agent.Evolution.Nsga.Fronts.{fast_non_dominated_sort-terminates}
use continuous_agent.Evolution.Nsga.FirstFront.{
  Distinct, first_of, undominated, first_front-undominated,
}
use continuous_agent.Evolution.Cluster.{Program, Island, drain_inbox, check_stagnation_and_adapt}
use continuous_agent.Evolution.Cluster.Invariant.{
  IsSound as IsSoundIsland, drain_inbox-IsSound, check_stagnation_and_adapt-bounds,
}

abbrev point : String → ℤ → ℕ → HeuristicPoint
point id packing fuel = record {
  id = id;
  island_id = 0;
  code = "return item - bin_size";
  packing_ratio = packing;
  fuel_consumed = fuel;
  generation = 1;
  phenotype_signature = id;
  is_pareto = false;
}

abbrev points : List HeuristicPoint
points = point "a" (pos 80) 5 ∷ point "b" (pos 90) 7 ∷ point "c" (pos 70) 6 ∷ []

compute_pareto_frontier-optimal_example :
    All (λ f. All (λ p. outperforms_point p f ≡ false) points) (compute_pareto_frontier 99 points)
    × All
        (λ p. (p.packing_ratio ≤ℤ negsuc 99) ⊎ Any (Covers p) (compute_pareto_frontier 99 points))
        points
compute_pareto_frontier-optimal_example = compute_pareto_frontier-optimal 99 points

-- Entropy is the number of clusters here.
abbrev add_cluster : ℕ → ℕ → ℕ → ℕ
add_cluster entropy count n = entropy + 1

abbrev is_low : ℕ → Bool
is_low entropy = ltb entropy 2

abbrev history : List Evaluation
history =
    record { fitness = pos 80; phenotype_signature = some "a" }
    ∷ record { fitness = pos 85; phenotype_signature = none }
    ∷ record { fitness = pos 85; phenotype_signature = some "a" }
    ∷ []

profile_island-IsSound_example :
    (r : IslandHealth ℕ) × (profile_island 0 1 add_cluster is_low 2 (pos 1) 3 history ≡ some r)
    × IsSound 0 1 add_cluster is_low 2 (pos 1) 3 (map fitness_of history) r
profile_island-IsSound_example =
    profile_island-IsSound 0 1 add_cluster is_low 2 (pos 1) 3 history (omega arith)

abbrev individual : String → ℤ → ℕ → Nsga2Individual ℕ
individual id packing fuel = record {
  id = id;
  code = "return 0";
  packing_ratio = packing;
  fuel_consumed = fuel;
  phenotype_signature = id;
  rank = 0;
  crowding_distance = 0;
}

abbrev population : List (Nsga2Individual ℕ)
population = individual "a" (pos 80) 5 ∷ individual "b" (pos 90) 7 ∷ individual "c" (pos 70) 6 ∷ []

abbrev distances : Distances ℕ
distances = record {
  infinite = 1000;
  none_yet = 0;
  add = λ a b. a + b;
  quotient = λ a b. pos_part a;
  gt = λ a b. ltb b a;
}

fast_non_dominated_sort-terminates_example :
    (fronts : List (List (Nsga2Individual ℕ))) × (fast_non_dominated_sort population ≡ some fronts)
fast_non_dominated_sort-terminates_example = fast_non_dominated_sort-terminates population

population-Distinct : Distinct population
population-Distinct =
    ((differ "a" "b" refl, (differ "a" "c" refl, tt)), ((differ "b" "c" refl, tt), (tt, tt)))

first_front-undominated_example :
    first_of (fast_non_dominated_sort-terminates population).0 ≡ undominated population population
first_front-undominated_example =
    first_front-undominated population (fast_non_dominated_sort-terminates population).0
      population-Distinct (fast_non_dominated_sort-terminates population).1

abbrev program : String → ℤ → Program
program signature fitness = record {
  signature = signature;
  code = "return 0";
  fitness = fitness;
  generation = 1;
  char_length = 8;
  origin_island = 0;
}

abbrev island : Island ℕ
island = record {
  stagnation_limit = 2;
  temperature = (1, 1);
  active_strategy = 0;
  clusters = ("a", program "a" (pos 80)) ∷ [];
  generations_without_improvement = 2;
  best_fitness = some (pos 80);
  generation_count = 1;
  inbox = program "a" (pos 85) ∷ program "b" (pos 70) ∷ [];
}

abbrev same : ℤ → ℤ → Bool
same a b = leb_ℤ a b

drain_inbox-IsSound_example :
    let r = drain_inbox same island in
    IsSoundIsland same r.0
    × (r.0.inbox ≡ [])
    × (r.1 ≤ length island.inbox)
    × (r.0.generation_count ≡ island.generation_count + length island.inbox)
drain_inbox-IsSound_example = drain_inbox-IsSound same island (refl, omega arith, tt)

check_stagnation_and_adapt-bounds_example :
    let r = check_stagnation_and_adapt suc island in
    (r.0.generations_without_improvement < island.stagnation_limit)
    × (r.0.clusters ≡ island.clusters)
    × (r.0.best_fitness ≡ island.best_fitness)
    × ((r.1 ≡ false) ⊎ (2 * r.0.temperature.0 ≤ 5 * r.0.temperature.1))
check_stagnation_and_adapt-bounds_example =
    check_stagnation_and_adapt-bounds suc island (omega arith)
