-- ===== src/FunSearch/Worker.antt =====
-- agent/funsearch_service.py: the state of `FunSearchService` and what its workers write. A worker
-- between two awaits is one step. The seed of `start`, the pipeline's diagnosis and the fingerprint
-- are arguments, as are the length of a text and the ids made of numbers.
pub mod Champion
use continuous_agent.Prelude.{
  ℕ, zero, suc, ◌+◌, max, String, str_eq, Bool, true, false, ◌&&◌, Option, none, some, List, [],
  ◌∷◌, ◌++◌, map, get_elem?, set, if◌then◌else◌,
}
use continuous_agent.Prelude.Int.{ℤ, pos, ltb_ℤ}
use continuous_agent.Evolution.Nsga.{Distances, Nsga2Individual}
use continuous_agent.Evolution.Cluster.{Program, Island, add_program}
use continuous_agent.FunSearch.{FunSearchIsland, Stored, register_heuristic}

pub record Service (Strategy D : Type 0) : Type 0 where
  pub is_running : Bool
  pub total_evals_completed : ℕ
  pub top_fitness_score : ℤ
  pub champion_program : Option Program
  pub cluster_islands : List (Island Strategy)
  pub nsga2_islands : List (FunSearchIsland D)
  pub heuristics : List (Stored D)

-- What a worker reads of a diagnosis: `int(execution_time_ms * 100)` is `hundredths`.
pub record Diagnosis : Type 0 where
  pub success : Bool
  pub fitness : ℤ
  pub hundredths : ℕ

-- `AsyncClusterIsland(i)` with the strategy that it draws.
abbrev pub new_island : {Strategy : Type 0} → Strategy → Island Strategy
new_island strategy = record {
  stagnation_limit = 15;
  temperature = (1, 1);
  active_strategy = strategy;
  clusters = [];
  generations_without_improvement = 0;
  best_fitness = none;
  generation_count = 0;
  inbox = [];
}

module _ {D : Type 0} where
  -- `next((ind for ind in individuals if ind.id == h_id), None)`
  abbrev pub find_individual : String → List (Nsga2Individual D) → Option (Nsga2Individual D)
  find_individual id [] = none
  find_individual id (p ∷ ps) =
      let rest = find_individual id ps in if str_eq p.id id then some p else rest

  -- `INSERT ... ON CONFLICT(id) DO UPDATE SET pareto_rank, crowding_distance`
  abbrev pub persist_individual : Stored D → List (Stored D) → List (Stored D)
  persist_individual r [] = r ∷ []
  persist_individual r (q ∷ rows) =
      let rest = persist_individual r rows in
      if str_eq q.id r.id
      then record {
        id = q.id;
        island_id = q.island_id;
        generation = q.generation;
        individual = record {
          id = q.individual.id;
          code = q.individual.code;
          packing_ratio = q.individual.packing_ratio;
          fuel_consumed = q.individual.fuel_consumed;
          phenotype_signature = q.individual.phenotype_signature;
          rank = r.individual.rank;
          crowding_distance = r.individual.crowding_distance;
        };
      }
        ∷ rows
      else q ∷ rest

  abbrev pub persist_match : Option (Nsga2Individual D) → ℕ → ℕ → List (Stored D) → List (Stored D)
  persist_match none i generation rows = rows
  persist_match (some ind) i generation rows =
      persist_individual
        (record { id = ind.id; island_id = i; generation = generation; individual = ind }) rows

module _ {D : Type 0} (distances : Distances D) (tiny : ℤ) where
  abbrev pub registered :
      Option (FunSearchIsland D) → Nsga2Individual D → Option (FunSearchIsland D)
  registered none p = none
  registered (some isl) p = register_heuristic distances tiny p isl

-- What happens to the service, one event after the other.
pub data Event (Strategy : Type 0) : Type 0 where
  to_start : Program → List Strategy → Event Strategy
  to_stop : Event Strategy
  to_evaluate : ℕ → String → Diagnosis → Option String → Event Strategy

module _ {Strategy D : Type 0} (distances : Distances D) (tiny : ℤ) (isclose : ℤ → ℤ → Bool)
    (heuristic_id : ℕ → ℕ → String → String) (char_length : String → ℕ) where
  -- Under the lock: the count, and the champion where the fitness is above the top.
  abbrev pub crown : Program → Service Strategy D → Service Strategy D
  crown prog s =
      let better = ltb_ℤ s.top_fitness_score prog.fitness in
      record {
        is_running = s.is_running;
        total_evals_completed = s.total_evals_completed + 1;
        top_fitness_score = if better then prog.fitness else s.top_fitness_score;
        champion_program = if better then some prog else s.champion_program;
        cluster_islands = s.cluster_islands;
        nsga2_islands = s.nsga2_islands;
        heuristics = s.heuristics;
      }

  -- The island after `register_heuristic`, and the row of the new individual if it has survived.
  abbrev pub filed :
      Option (FunSearchIsland D) → ℕ → ℕ → String → Service Strategy D → Service Strategy D
  filed none i generation h_id s = s
  filed (some isl) i generation h_id s = record {
    is_running = s.is_running;
    total_evals_completed = s.total_evals_completed;
    top_fitness_score = s.top_fitness_score;
    champion_program = s.champion_program;
    cluster_islands = s.cluster_islands;
    nsga2_islands = set s.nsga2_islands i isl;
    heuristics =
        persist_match (find_individual h_id isl.individuals) i (generation + 1) s.heuristics;
  }

  -- The NSGA-II population of the island: an exception here is only logged.
  abbrev pub file_heuristic : ℕ → ℕ → Program → Diagnosis → Service Strategy D → Service Strategy D
  file_heuristic i generation prog diag s =
      let h_id = heuristic_id i generation prog.signature in
      filed
        (registered distances tiny (get_elem? s.nsga2_islands i) (record {
          id = h_id;
          code = prog.code;
          packing_ratio = diag.fitness;
          fuel_consumed = max diag.hundredths 50;
          phenotype_signature = prog.signature;
          rank = 0;
          crowding_distance = distances.none_yet;
        }))
        i generation h_id s

  abbrev pub with_islands : List (Island Strategy) → Service Strategy D → Service Strategy D
  with_islands islands s = record {
    is_running = s.is_running;
    total_evals_completed = s.total_evals_completed;
    top_fitness_score = s.top_fitness_score;
    champion_program = s.champion_program;
    cluster_islands = islands;
    nsga2_islands = s.nsga2_islands;
    heuristics = s.heuristics;
  }

  abbrev pub program_of : ℕ → String → Diagnosis → String → Island Strategy → Program
  program_of i code diag fp island = record {
    signature = fp;
    code = code;
    fitness = diag.fitness;
    generation = island.generation_count + 1;
    char_length = char_length code;
    origin_island = i;
  }

  abbrev pub accept_on :
      Option (Island Strategy)
      → ℕ
      → String
      → Diagnosis
      → String
      → Service Strategy D
      → Service Strategy D
  accept_on none i code diag fp s = s
  accept_on (some island) i code diag fp s =
      let prog = program_of i code diag fp island in
      let added = (add_program isclose prog island).0 in
      file_heuristic i added.generation_count prog diag
        (crown prog (with_islands (set s.cluster_islands i added) s))

  -- What `_island_worker` does with a diagnosis; without a fingerprint it raised before any change.
  unfoldable pub evaluated :
      ℕ → String → Diagnosis → Option String → Service Strategy D → Service Strategy D
  evaluated i code diag none s = s
  evaluated i code diag (some fp) s =
      if diag.success && ltb_ℤ (pos 0) diag.fitness
      then accept_on (get_elem? s.cluster_islands i) i code diag fp s
      else s

  -- `start`, of which the islands draw these strategies; without effect while it runs.
  unfoldable pub start : Program → List Strategy → Service Strategy D → Service Strategy D
  start seed strategies s = if s.is_running then s else record {
    is_running = true;
    total_evals_completed = s.total_evals_completed;
    top_fitness_score = seed.fitness;
    champion_program = some seed;
    cluster_islands =
        map (λ strategy. (add_program isclose seed (new_island strategy)).0) strategies;
    nsga2_islands = s.nsga2_islands;
    heuristics = s.heuristics;
  }

  unfoldable pub stop : Service Strategy D → Service Strategy D
  stop s = record {
    is_running = false;
    total_evals_completed = s.total_evals_completed;
    top_fitness_score = s.top_fitness_score;
    champion_program = s.champion_program;
    cluster_islands = s.cluster_islands;
    nsga2_islands = s.nsga2_islands;
    heuristics = s.heuristics;
  }

  abbrev pub handle : Event Strategy → Service Strategy D → Service Strategy D
  handle (to_start seed strategies) s = start seed strategies s
  handle to_stop s = stop s
  handle (to_evaluate i code diag fp) s = evaluated i code diag fp s

  unfoldable pub handle_all : List (Event Strategy) → Service Strategy D → Service Strategy D
  handle_all [] s = s
  handle_all (e ∷ events) s = handle_all events (handle e s)
