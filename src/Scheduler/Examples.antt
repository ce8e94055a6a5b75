-- ===== src/Scheduler/Examples.antt =====
-- A test of the supervisory cycle on two islands.
use continuous_agent.Prelude.{ℕ, ◌+◌, ltb, Bool, Option, none, some, List, [], ◌∷◌}
use continuous_agent.Prelude.Int.{pos}
use continuous_agent.Evolution.Health.{Evaluation, IslandHealth, profile_island}
use continuous_agent.Scheduler.{HeuristicRow}

abbrev rows : List HeuristicRow
rows =
    record { island_id = 0; fitness = pos 80; phenotype_signature = some "a" }
    ∷ record { island_id = 1; fitness = pos 70; phenotype_signature = none }
    ∷ record { island_id = 0; fitness = pos 85; phenotype_signature = some "" }
    ∷ []

abbrev add_cluster : ℕ → ℕ → ℕ → ℕ
add_cluster entropy count n = entropy + 1

abbrev is_low : ℕ → Bool
is_low entropy = ltb entropy 2

abbrev profile : ℕ → List Evaluation → Option (IslandHealth ℕ)
profile i history = profile_island i 0 add_cluster is_low 2 (pos 1) 3 history
