-- ===== src/FunSearch.antt =====
-- agent/funsearch_service.py: the islands of the service, their migration along a ring and their
-- cataclysmic restart. An island holds the individuals of agent/nsga2.py. The dictionary of islands
-- is the list of them in the order of their ids. The ids that are made from numbers, the language
-- models and the event broker are outside the model.
pub mod Restart
pub mod Ring
pub mod Migration
pub mod Worker
pub mod Sampling
mod Examples
use continuous_agent.Prelude.{
  ℕ, zero, suc, ◌+◌, ◌-◌, ◌%◌, String, str_eq, Bool, true, false, Option, none, some, ◌>>=◌, List,
  [], ◌∷◌, ◌++◌, map, length, take, get_elem?, set, leb, ltb, if◌then◌else◌,
}
use continuous_agent.Prelude.Int.{ℤ, leb_ℤ}
use continuous_agent.Prelude.Sort.{sort_by}
use continuous_agent.Evolution.Nsga.{Distances, Nsga2Individual, fast_non_dominated_sort}
use continuous_agent.Evolution.Nsga.FirstFront.{first_of}
use continuous_agent.Evolution.Nsga.Crowding.{assign_crowding_distance, by_crowding, nsga2_truncate}

pub record FunSearchIsland (D : Type 0) : Type 0 where
  pub island_id : ℕ
  pub max_capacity : ℕ
  pub individuals : List (Nsga2Individual D)
  pub prompt_paradigm : String

-- A row of `heuristics`; an infinite distance is stored as 1e9.
pub record Stored (D : Type 0) : Type 0 where
  pub id : String
  pub island_id : ℕ
  pub generation : ℕ
  pub individual : Nsga2Individual D

module _ {D : Type 0} where
  abbrev pub with_individuals : List (Nsga2Individual D) → FunSearchIsland D → FunSearchIsland D
  with_individuals individuals s = record {
    island_id = s.island_id;
    max_capacity = s.max_capacity;
    individuals = individuals;
    prompt_paradigm = s.prompt_paradigm;
  }

  abbrev pub with_id : String → Nsga2Individual D → Nsga2Individual D
  with_id id p = record {
    id = id;
    code = p.code;
    packing_ratio = p.packing_ratio;
    fuel_consumed = p.fuel_consumed;
    phenotype_signature = p.phenotype_signature;
    rank = p.rank;
    crowding_distance = p.crowding_distance;
  }

  -- An individual as it is in a list of updated ones: the same object, found by its id.
  abbrev pub latest : List (Nsga2Individual D) → Nsga2Individual D → Nsga2Individual D
  latest [] p = p
  latest (q ∷ qs) p = let rest = latest qs p in if str_eq q.id p.id then q else rest

  abbrev pub join : List (List (Nsga2Individual D)) → List (Nsga2Individual D)
  join [] = []
  join (front ∷ fronts) = front ++ join fronts

  -- `if not self.individuals: return []`, else the fronts.
  abbrev pub fronts_of : List (Nsga2Individual D) → Option (List (List (Nsga2Individual D)))
  fronts_of [] = some []
  fronts_of (p ∷ ps) = fast_non_dominated_sort (p ∷ ps)

  -- The frontier, and the individuals with their new ranks.
  unfoldable pub get_pareto_front :
      List (Nsga2Individual D) → Option (List (Nsga2Individual D) × List (Nsga2Individual D))
  get_pareto_front individuals = fronts_of individuals >>= λ fronts.
      some (first_of fronts, map (latest (join fronts)) individuals)

  -- `sorted(individuals, key=packing_ratio, reverse=True)`
  abbrev pub best_first : List (Nsga2Individual D) → List (Nsga2Individual D)
  best_first individuals = sort_by (λ x y. leb_ℤ y.packing_ratio x.packing_ratio) individuals

  -- `if not pareto_front`
  abbrev pub front_or_best :
      List (Nsga2Individual D) → List (Nsga2Individual D) → List (Nsga2Individual D)
  front_or_best [] individuals = best_first individuals
  front_or_best (p ∷ ps) individuals = p ∷ ps

  -- `INSERT ... ON CONFLICT(id) DO UPDATE SET island_id = excluded.island_id`
  abbrev pub upsert_island : Stored D → List (Stored D) → List (Stored D)
  upsert_island r [] = r ∷ []
  upsert_island r (q ∷ rows) =
      let rest = upsert_island r rows in
      if str_eq q.id r.id
      then record {
        id = q.id;
        island_id = r.island_id;
        generation = q.generation;
        individual = q.individual;
      }
        ∷ rows
      else q ∷ rest

  abbrev pub with_sources :
      List (FunSearchIsland D)
      → List (List (Nsga2Individual D))
      → List (ℕ × List (Nsga2Individual D))
  with_sources (s ∷ islands) (m ∷ migrants) = (s.island_id, m) ∷ with_sources islands migrants
  with_sources [] migrants = []
  with_sources (s ∷ islands) [] = []

module _ {D : Type 0} (distances : Distances D) (tiny : ℤ) where
  -- A new individual has rank 0 and no distance yet.
  abbrev pub fresh : Nsga2Individual D → Nsga2Individual D
  fresh p = record {
    id = p.id;
    code = p.code;
    packing_ratio = p.packing_ratio;
    fuel_consumed = p.fuel_consumed;
    phenotype_signature = p.phenotype_signature;
    rank = 0;
    crowding_distance = distances.none_yet;
  }

  -- `register_heuristic` of the fields of `p`; `none` is a sort that runs out of fuel.
  unfoldable pub register_heuristic :
      Nsga2Individual D → FunSearchIsland D → Option (FunSearchIsland D)
  register_heuristic p s =
      let grown = s.individuals ++ fresh p ∷ [] in
      if ltb s.max_capacity (length grown)
      then (nsga2_truncate distances tiny grown s.max_capacity >>= λ survivors.
          some (with_individuals survivors s))
      else some (with_individuals grown s)

  -- The elites of an island by its frontier, and the island with ranks and distances updated.
  abbrev pub pick :
      ℕ
      → FunSearchIsland D
      → List (Nsga2Individual D) × List (Nsga2Individual D)
      → List (Nsga2Individual D) × FunSearchIsland D
  pick elite_count s (front, ranked) =
      let assigned = assign_crowding_distance distances tiny (front_or_best front ranked) in
      (
        take elite_count (by_crowding distances assigned),
        with_individuals (map (latest assigned) ranked) s,
      )

  unfoldable pub select_elites :
      ℕ → FunSearchIsland D → Option (List (Nsga2Individual D) × FunSearchIsland D)
  select_elites elite_count s =
      get_pareto_front s.individuals >>= λ found. some (pick elite_count s found)

  -- The first loop of `execute_ring_migration`.
  unfoldable pub collect :
      ℕ
      → List (FunSearchIsland D)
      → Option (List (List (Nsga2Individual D)) × List (FunSearchIsland D))
  collect elite_count [] = some ([], [])
  collect elite_count (s ∷ islands) = select_elites elite_count s >>= λ (elites, s').
      collect elite_count islands >>= λ (migrants, islands').
      some (elites ∷ migrants, s' ∷ islands')

  module _ (migrated_id : String → ℕ → ℕ → String) where
    abbrev pub relabel : ℕ → ℕ → Nsga2Individual D → Nsga2Individual D
    relabel src_id target_id p = with_id (migrated_id p.id src_id target_id) p

    -- The inner loop of the injection: the target island, and the rows.
    unfoldable pub inject :
        ℕ
        → List (Nsga2Individual D)
        → FunSearchIsland D
        → List (Stored D)
        → Option (FunSearchIsland D × List (Stored D))
    inject src_id [] target rows = some (target, rows)
    inject src_id (p ∷ migrants) target rows =
        let ind = relabel src_id target.island_id p in
        register_heuristic ind target >>= λ target'. inject src_id migrants target' (
          upsert_island
            (record { id = ind.id; island_id = target.island_id; generation = 0; individual = ind })
            rows)

    -- The migrants of one source into the island at its target.
    unfoldable pub inject_into :
        ℕ
        → ℕ
        → List (Nsga2Individual D)
        → List (FunSearchIsland D)
        → List (Stored D)
        → Option (List (FunSearchIsland D) × List (Stored D))
    inject_into target src_id migrants islands rows = get_elem? islands target >>= λ s.
        inject src_id migrants s rows >>= λ (s', rows'). some (set islands target s', rows')

    -- `for idx, src_id in enumerate(island_ids)`, with the islands as they are by now.
    unfoldable pub inject_all :
        ℕ
        → List (ℕ × List (Nsga2Individual D))
        → List (FunSearchIsland D)
        → List (Stored D)
        → Option (List (FunSearchIsland D) × List (Stored D))
    inject_all idx [] islands rows = some (islands, rows)
    inject_all idx ((src_id, migrants) ∷ sources) islands rows =
        inject_into ((idx + 1) % length islands) src_id migrants islands rows
        >>= λ (islands', rows'). inject_all (idx + 1) sources islands' rows'

    -- The islands, and the rows of the database; the whole transaction or nothing.
    unfoldable pub execute_ring_migration :
        ℕ
        → List (FunSearchIsland D)
        → List (Stored D)
        → Option (List (FunSearchIsland D) × List (Stored D))
    execute_ring_migration elite_count islands rows =
        if ltb (length islands) 2
        then some (islands, rows)
        else collect elite_count islands >>= λ (migrants, islands').
            inject_all 0 (with_sources islands migrants) islands' rows

-- `alternate_paradigms[(current_idx + 1) % 3]`
unfoldable pub next_paradigm : String → String
next_paradigm paradigm =
    if str_eq paradigm "INVERSE_FIT_DIVERGENCE"
    then "STOCHASTIC_SCATTER"
    else if str_eq paradigm "STOCHASTIC_SCATTER"
    then "COMPACT_GREEDY"
    else "INVERSE_FIT_DIVERGENCE"

module _ {D : Type 0} where
  -- The island of the given id, which has individuals.
  unfoldable pub restart_island : ℕ → FunSearchIsland D → Option (FunSearchIsland D)
  restart_island keep_pareto_elites s = get_pareto_front s.individuals >>= λ (front, ranked).
      some (record {
        island_id = s.island_id;
        max_capacity = s.max_capacity;
        individuals = take keep_pareto_elites (front_or_best front ranked);
        prompt_paradigm = next_paradigm s.prompt_paradigm;
      })

  -- `if not island or not island.individuals: return`
  abbrev pub restart_if_any :
      ℕ → List (Nsga2Individual D) → FunSearchIsland D → Option (FunSearchIsland D)
  restart_if_any keep [] s = some s
  restart_if_any keep (p ∷ ps) s = restart_island keep s

  abbrev pub restart_at :
      Option (FunSearchIsland D)
      → ℕ
      → ℕ
      → List (FunSearchIsland D)
      → Option (List (FunSearchIsland D))
  restart_at none island_id keep islands = some islands
  restart_at (some s) island_id keep islands =
      restart_if_any keep s.individuals s >>= λ s'. some (set islands island_id s')

  -- `island_dict.get(island_id)`, by the place in the list.
  unfoldable pub execute_cataclysmic_restart :
      ℕ → ℕ → List (FunSearchIsland D) → Option (List (FunSearchIsland D))
  execute_cataclysmic_restart island_id keep_pareto_elites islands =
      restart_at (get_elem? islands island_id) island_id keep_pareto_elites islands
