-- ===== src/Evolution/Cluster.antt =====
-- agent/restartable_island.py: `AsyncClusterIsland`, one program for each signature. `math.isclose`
-- with `abs_tol=1e-5` and `mutate_strategy` are parameters. `-inf` is `none`, and a temperature is a
-- quotient of two integers.
pub mod Invariant
use continuous_agent.Prelude.{
  ℕ, zero, suc, ◌+◌, ◌*◌, String, Bool, true, false, ◌&&◌, Option, none, some, List, [], ◌∷◌, ltb,
  leb, if◌then◌else◌,
}
use continuous_agent.Prelude.Int.{ℤ, ltb_ℤ}
use continuous_agent.Prelude.Maps.{find, store}

pub record Program : Type 0 where
  pub signature : String
  pub code : String
  pub fitness : ℤ
  pub generation : ℕ
  pub char_length : ℕ
  pub origin_island : ℕ

pub record Island (Strategy : Type 0) : Type 0 where
  pub stagnation_limit : ℕ
  pub temperature : ℕ × ℕ
  pub active_strategy : Strategy
  pub clusters : List (String × Program)
  pub generations_without_improvement : ℕ
  pub best_fitness : Option ℤ
  pub generation_count : ℕ
  pub inbox : List Program

-- `fitness > best`
abbrev pub exceeds : ℤ → Option ℤ → Bool
exceeds fitness none = true
exceeds fitness (some best) = ltb_ℤ best fitness

-- `min(2.5, temperature * 1.5)`
abbrev pub warmer : ℕ × ℕ → ℕ × ℕ
warmer (num, den) = if ltb (5 * (2 * den)) (2 * (3 * num)) then (5, 2) else (3 * num, 2 * den)

-- Does the program take the place of what its cluster holds?
abbrev pub replaces : (ℤ → ℤ → Bool) → Program → Option Program → Bool
replaces isclose program none = true
replaces isclose program (some current) =
    if ltb_ℤ current.fitness program.fitness
    then true
    else isclose program.fitness current.fitness && ltb program.char_length current.char_length

module _ {Strategy : Type 0} where
  -- The counters and the best fitness.
  abbrev pub count_program : Program → Island Strategy → Island Strategy
  count_program program s =
      let better = exceeds program.fitness s.best_fitness in
      record {
        stagnation_limit = s.stagnation_limit;
        temperature = s.temperature;
        active_strategy = s.active_strategy;
        clusters = s.clusters;
        generations_without_improvement =
            if better then 0 else s.generations_without_improvement + 1;
        best_fitness = if better then some program.fitness else s.best_fitness;
        generation_count = s.generation_count + 1;
        inbox = s.inbox;
      }

  -- `self.clusters[sig] = program`
  abbrev pub keep_program : Program → Island Strategy → Island Strategy
  keep_program program s = record {
    stagnation_limit = s.stagnation_limit;
    temperature = s.temperature;
    active_strategy = s.active_strategy;
    clusters = store program.signature program s.clusters;
    generations_without_improvement = s.generations_without_improvement;
    best_fitness = s.best_fitness;
    generation_count = s.generation_count;
    inbox = s.inbox;
  }

  abbrev pub set_inbox : List Program → Island Strategy → Island Strategy
  set_inbox inbox s = record {
    stagnation_limit = s.stagnation_limit;
    temperature = s.temperature;
    active_strategy = s.active_strategy;
    clusters = s.clusters;
    generations_without_improvement = s.generations_without_improvement;
    best_fitness = s.best_fitness;
    generation_count = s.generation_count;
    inbox = inbox;
  }

  module _ (isclose : ℤ → ℤ → Bool) where
    -- The island, whether the program was kept, and whether it is the best so far.
    unfoldable pub add_program : Program → Island Strategy → Island Strategy × (Bool × Bool)
    add_program program s =
        let counted = count_program program s in
        let best = exceeds program.fitness s.best_fitness in
        if replaces isclose program (find program.signature s.clusters)
        then (keep_program program counted, (true, best))
        else (counted, (false, best))

    -- The programs of the inbox, one by one, with `ingested`.
    unfoldable pub ingest : List Program → ℕ → Island Strategy → Island Strategy × ℕ
    unfolding add_program
    ingest [] ingested s = (s, ingested)
    ingest (program ∷ programs) ingested s =
        let (s', (is_new, best)) = add_program program s in
        ingest programs (if is_new then ingested + 1 else ingested) s'

    unfoldable pub drain_inbox : Island Strategy → Island Strategy × ℕ
    unfolding ingest
    drain_inbox s = ingest s.inbox 0 (set_inbox [] s)

  -- Whether the island shifted its strategy.
  unfoldable pub check_stagnation_and_adapt :
      (Strategy → Strategy) → Island Strategy → Island Strategy × Bool
  check_stagnation_and_adapt mutate_strategy s =
      if leb s.stagnation_limit s.generations_without_improvement
      then (
        record {
          stagnation_limit = s.stagnation_limit;
          temperature = warmer s.temperature;
          active_strategy = mutate_strategy s.active_strategy;
          clusters = s.clusters;
          generations_without_improvement = 0;
          best_fitness = s.best_fitness;
          generation_count = s.generation_count;
          inbox = s.inbox;
        },
        true,
      )
      else (s, false)
