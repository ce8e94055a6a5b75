-- ===== src/Evolution.antt =====
-- The evolutionary search: agent/nsga2.py, agent/island_profiler.py, agent/restartable_island.py.
-- Packing ratios and fitness are integers, a fixed number of units to 1.0.
mod Examples
pub mod Frontier
pub mod Health
pub mod Nsga
pub mod Cluster
use continuous_agent.Prelude.{ℕ, Bool, true, false, ◌&&◌, ◌||◌, ltb, leb, if◌then◌else◌}
use continuous_agent.Prelude.Int.{ℤ, leb_ℤ, ltb_ℤ}

-- nsga2.py, `dominates`, on packing ratio and fuel of the one and of the other.
abbrev pub outperforms : ℤ → ℕ → ℤ → ℕ → Bool
outperforms p_packing p_fuel q_packing q_fuel =
    (leb_ℤ q_packing p_packing && leb p_fuel q_fuel)
    && (ltb_ℤ q_packing p_packing || ltb p_fuel q_fuel)
