-- ===== src/Evolution/Frontier.antt =====
-- agent/island_profiler.py: `compute_pareto_frontier`, a sort and a sweep.
pub mod Optimal
use continuous_agent.Prelude.{
  ℕ, ◌-◌, String, Bool, true, false, ◌&&◌, ◌||◌, List, [], ◌∷◌, ltb, ◌==◌, if◌then◌else◌,
}
use continuous_agent.Prelude.Int.{ℤ, pos, negsuc, leb_ℤ, ltb_ℤ}

pub record HeuristicPoint : Type 0 where
  pub id : String
  pub island_id : ℕ
  pub code : String
  pub packing_ratio : ℤ
  pub fuel_consumed : ℕ
  pub generation : ℕ
  pub phenotype_signature : String
  pub is_pareto : Bool

-- `(x.fuel_consumed, -x.packing_ratio)` of the one is at most that of the other.
abbrev pub sorts_before : HeuristicPoint → HeuristicPoint → Bool
sorts_before p q =
    ltb p.fuel_consumed q.fuel_consumed
    || (p.fuel_consumed == q.fuel_consumed && leb_ℤ q.packing_ratio p.packing_ratio)

unfoldable pub insert : HeuristicPoint → List HeuristicPoint → List HeuristicPoint
insert p [] = p ∷ []
insert p (q ∷ qs) = let rest = insert p qs in if sorts_before p q then p ∷ q ∷ qs else q ∷ rest

-- `sorted` with that key: the order is stable.
unfoldable pub sorted : List HeuristicPoint → List HeuristicPoint
unfolding insert
sorted [] = []
sorted (p ∷ ps) = insert p (sorted ps)

abbrev pub set_pareto : Bool → HeuristicPoint → HeuristicPoint
set_pareto b p = record {
  id = p.id;
  island_id = p.island_id;
  code = p.code;
  packing_ratio = p.packing_ratio;
  fuel_consumed = p.fuel_consumed;
  generation = p.generation;
  phenotype_signature = p.phenotype_signature;
  is_pareto = b;
}

-- The loop: the frontier, and the points with the flag that it leaves on them.
unfoldable pub sweep : ℤ → List HeuristicPoint → List HeuristicPoint × List HeuristicPoint
sweep max_packing [] = ([], [])
sweep max_packing (p ∷ ps) =
    let better = ltb_ℤ max_packing p.packing_ratio in
    let (front, marked) = sweep (if better then p.packing_ratio else max_packing) ps in
    (if better then set_pareto true p ∷ front else front, set_pareto better p ∷ marked)

-- `max_packing = -1.0`; `unit` is 1.0 less one unit.
unfoldable pub compute_pareto_frontier : ℕ → List HeuristicPoint → List HeuristicPoint
unfolding sorted sweep
compute_pareto_frontier unit candidates = (sweep (negsuc unit) (sorted candidates)).0
