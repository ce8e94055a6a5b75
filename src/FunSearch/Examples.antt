-- ===== src/FunSearch/Examples.antt =====
-- Runs of the FunSearch service on two small islands.
use continuous_agent.Prelude.{
  str_eq, if◌then◌else◌, ℕ, ◌+◌, refl, String, true, false, none, some, List, [], ◌∷◌, ltb,
}
use continuous_agent.Prelude.Int.{ℤ, pos, pos_part, leb_ℤ}
use continuous_agent.Evolution.Nsga.{Distances, Nsga2Individual}
use continuous_agent.Evolution.Cluster.{Program}
use continuous_agent.FunSearch.{FunSearchIsland}
use continuous_agent.FunSearch.Worker.{
  Service, Event, to_start, to_stop, to_evaluate, start, handle_all,
}
use continuous_agent.FunSearch.Worker.Champion.{IsCrowned, handle_all-IsCrowned}

abbrev individual : String → ℤ → ℕ → Nsga2Individual ℕ
individual id packing fuel = record {
  id = id;
  code = "return 0";
  packing_ratio = packing;
  fuel_consumed = fuel;
  phenotype_signature = id;
  rank = 0;
  crowding_distance = 0;
}

abbrev distances : Distances ℕ
distances = record {
  infinite = 1000;
  none_yet = 0;
  add = λ a b. a + b;
  quotient = λ a b. pos_part a;
  gt = λ a b. ltb b a;
}

abbrev others : List (Nsga2Individual ℕ)
others = individual "b" (pos 90) 7 ∷ individual "c" (pos 70) 6 ∷ []

abbrev island : ℕ → List (Nsga2Individual ℕ) → FunSearchIsland ℕ
island island_id individuals = record {
  island_id = island_id;
  max_capacity = 3;
  individuals = individuals;
  prompt_paradigm = "STANDARD";
}

abbrev islands : List (FunSearchIsland ℕ)
islands =
    island 0 (individual "a" (pos 80) 5 ∷ others) ∷ island 1 (individual "d" (pos 60) 9 ∷ []) ∷ []

abbrev migrated_id : String → ℕ → ℕ → String
migrated_id id src_id target_id = if str_eq id "b" then "b_migrated" else "migrated"

abbrev idle : Service ℕ ℕ
idle = record {
  is_running = false;
  total_evals_completed = 0;
  top_fitness_score = pos 0;
  champion_program = none;
  cluster_islands = [];
  nsga2_islands = islands;
  heuristics = [];
}

abbrev seed : Program
seed = record {
  signature = "seed";
  code = "return 1.0";
  fitness = pos 50;
  generation = 0;
  char_length = 10;
  origin_island = 0;
}

abbrev events : List (Event ℕ)
events =
    to_evaluate 1 "return item" (record { success = true; fitness = pos 70; hundredths = 3 })
      (some "f")
    ∷ to_stop
    ∷ to_start seed (0 ∷ 1 ∷ [])
    ∷ []

handle_all-IsCrowned_example : IsCrowned (
    handle_all distances
      (pos 0)
      (λ a b. leb_ℤ a b)
      (λ i generation fp. fp)
      (λ code. 11)
      events
      (start distances
        (pos 0)
        (λ a b. leb_ℤ a b)
        (λ i generation fp. fp)
        (λ code. 11)
        seed
        (0 ∷ 1 ∷ [])
        idle))
handle_all-IsCrowned_example =
    handle_all-IsCrowned distances (pos 0) (λ a b. leb_ℤ a b) (λ i generation fp. fp) (λ code. 11)
      seed (0 ∷ 1 ∷ []) events idle refl
