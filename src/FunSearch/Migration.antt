-- ===== src/FunSearch/Migration.antt =====
-- agent/funsearch_service.py: `execute_ring_migration` as a whole.
use continuous_agent.Prelude.{ℕ, ◌≡◌, some, List, [], ◌∷◌, length}
use continuous_agent.Prelude.Int.{ℤ}
use continuous_agent.Evolution.Nsga.{Distances, Nsga2Individual}
use continuous_agent.FunSearch.{FunSearchIsland, select_elites}

module _ {D : Type 0} (distances : Distances D) (tiny : ℤ) where
  -- What the first loop takes from one island.
  Taken : ℕ → FunSearchIsland D → List (Nsga2Individual D) → FunSearchIsland D → Type 0
  Taken elite_count s elites s' =
      (select_elites distances tiny elite_count s ≡ some (elites, s'))
      × (length s'.individuals ≡ length s.individuals)
      × (s'.max_capacity ≡ s.max_capacity)

  -- What it takes from all of them.
  abbrev AllTaken :
      ℕ
      → List (FunSearchIsland D)
      → List (List (Nsga2Individual D))
      → List (FunSearchIsland D)
      → Type 0
  AllTaken elite_count [] migrants ready = (migrants ≡ []) × (ready ≡ [])
  AllTaken elite_count (s ∷ islands) [] ready = ⊥
  AllTaken elite_count (s ∷ islands) (m ∷ migrants) [] = ⊥
  AllTaken elite_count (s ∷ islands) (m ∷ migrants) (s' ∷ ready) =
      Taken elite_count s m s' × AllTaken elite_count islands migrants ready
