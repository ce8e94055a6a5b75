-- ===== src/Scheduler/Cycle.antt =====
-- agent/scheduler.py: every island is profiled on its own rows, and what the cycle asks for.
use continuous_agent.Prelude.{
  ℕ, ◌≢◌, Bool, false, ◌||◌, Option, some, ◌>>=◌, List, [], ◌∷◌, ◌++◌, map, ◌==◌, if◌then◌else◌,
}
use continuous_agent.Prelude.Sort.{Ordered}
use continuous_agent.Evolution.Health.{Evaluation, IslandHealth, Action}
use continuous_agent.Scheduler.{HeuristicRow, Remedy, evaluation_of, restarts, needs_migration}

-- The history of an island in the dictionary, and its rows in the result of the query.
abbrev pub history_of : ℕ → List (ℕ × List Evaluation) → List Evaluation
history_of i [] = []
history_of i ((k, history) ∷ d) = if k == i then history else history_of i d

abbrev pub rows_of : ℕ → List HeuristicRow → List Evaluation
rows_of i [] = []
rows_of i (r ∷ rows) = if r.island_id == i then evaluation_of r ∷ rows_of i rows else rows_of i rows

-- The ids of the islands that have a row, each once, in the order of their first rows.
abbrev pub add_id : ℕ → List ℕ → List ℕ
add_id i [] = i ∷ []
add_id i (k ∷ ids) = let rest = add_id i ids in if k == i then k ∷ ids else k ∷ rest

unfoldable pub island_ids_from : List HeuristicRow → List ℕ → List ℕ
island_ids_from [] ids = ids
island_ids_from (r ∷ rows) ids = island_ids_from rows (add_id r.island_id ids)

abbrev pub island_ids : List HeuristicRow → List ℕ
island_ids rows = island_ids_from rows []

keys : List (ℕ × List Evaluation) → List ℕ
keys d = map (λ (e : ℕ × List Evaluation). e.0) d

-- No id stands twice.
abbrev pub Apart : List ℕ → Type 0
Apart ids = Ordered (λ i j. i ≢ j) ids

module _ {E : Type 0} (profile : ℕ → List Evaluation → Option (IslandHealth E)) where
  -- What the profiles of some islands ask for, each on its own history; `none` where one raises.
  abbrev pub verdicts : (ℕ → List Evaluation) → List ℕ → Option (List (ℕ × Action))
  verdicts history [] = some []
  verdicts history (i ∷ ids) = profile i (history i) >>= λ health.
      verdicts history ids >>= λ rest. some ((i, health.suggested_action) ∷ rest)

  -- The restarts that are asked for, in order.
  abbrev pub asked_restarts : List (ℕ × Action) → List Remedy
  asked_restarts [] = []
  asked_restarts ((i, action) ∷ asked) = restarts i action ++ asked_restarts asked

  abbrev pub migration_asked : List (ℕ × Action) → Bool
  migration_asked [] = false
  migration_asked ((i, action) ∷ asked) = needs_migration action || migration_asked asked

  -- The loop's result, from the answers.
  abbrev concluded : Bool → List (ℕ × Action) → Option (List Remedy × Bool)
  concluded required asked = some (asked_restarts asked, required || migration_asked asked)

  abbrev restarts_before : ℕ → Action → List Remedy × Bool → Option (List Remedy × Bool)
  restarts_before i action (remedies, required) = some (restarts i action ++ remedies, required)
