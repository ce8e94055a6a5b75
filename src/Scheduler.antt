-- ===== src/Scheduler.antt =====
-- agent/scheduler.py: the supervisory cycle over the profiles of agent/island_profiler.py. The rows
-- come from the query of `heuristics`, in its order; telemetry and logging are left out, and the
-- restart and the migration of the service are the actions that the cycle asks for.
pub mod Cycle
mod Examples
use continuous_agent.Prelude.{
  ℕ, String, str_eq, Bool, true, false, ◌||◌, Option, none, some, ◌>>=◌, List, [], ◌∷◌, ◌++◌, ◌==◌,
  if◌then◌else◌,
}
use continuous_agent.Prelude.Int.{ℤ}
use continuous_agent.Evolution.Health.{
  Evaluation, IslandHealth, Action, nominal, ring_migration, cataclysmic_restart, profile_island,
}

pub record HeuristicRow : Type 0 where
  pub island_id : ℕ
  pub fitness : ℤ
  pub phenotype_signature : Option String

pub data Remedy : Type 0 where
  execute_cataclysmic_restart : (island_id : ℕ) → Remedy
  execute_ring_migration : (elite_count : ℕ) → Remedy

-- `r["phenotype_signature"] or "default"`
abbrev pub or_default : Option String → String
or_default none = "default"
or_default (some s) = if str_eq s "" then "default" else s

abbrev pub evaluation_of : HeuristicRow → Evaluation
evaluation_of r = record {
  fitness = r.fitness;
  phenotype_signature = some (or_default r.phenotype_signature);
}

-- `island_histories.setdefault(i_id, []).append(...)`
abbrev pub append_to : ℕ → Evaluation → List (ℕ × List Evaluation) → List (ℕ × List Evaluation)
append_to i e [] = (i, e ∷ []) ∷ []
append_to i e ((k, history) ∷ d) =
    let rest = append_to i e d in if k == i then (k, history ++ e ∷ []) ∷ d else (k, history) ∷ rest

unfoldable pub group_rows :
    List HeuristicRow → List (ℕ × List Evaluation) → List (ℕ × List Evaluation)
group_rows [] d = d
group_rows (r ∷ rows) d = group_rows rows (append_to r.island_id (evaluation_of r) d)

-- What one profile asks for: a restart at once, and whether a migration is required.
abbrev pub restarts : ℕ → Action → List Remedy
restarts i cataclysmic_restart = execute_cataclysmic_restart i ∷ []
restarts i ring_migration = []
restarts i nominal = []

abbrev pub needs_migration : Action → Bool
needs_migration cataclysmic_restart = false
needs_migration ring_migration = true
needs_migration nominal = false

module _ {E : Type 0} (profile : ℕ → List Evaluation → Option (IslandHealth E)) where
  -- The loop over the islands, with `migration_required`; `none` is an exception of the profile.
  unfoldable pub inspect : List (ℕ × List Evaluation) → Bool → Option (List Remedy × Bool)
  inspect [] migration_required = some ([], migration_required)
  inspect ((i, history) ∷ islands) migration_required = profile i history >>= λ health.
      inspect islands (migration_required || needs_migration health.suggested_action)
      >>= λ (remedies, required). some (restarts i health.suggested_action ++ remedies, required)

  unfoldable pub run_supervisory_cycle : List HeuristicRow → Option (List Remedy)
  unfolding inspect group_rows
  run_supervisory_cycle rows = inspect (group_rows rows []) false >>= λ (remedies, required).
      some (remedies ++ (if required then execute_ring_migration 2 ∷ [] else []))
