-- ===== src/Packing/Wasm.antt =====
-- agent/wasm_sandbox.py and sandbox.py: the simulation in the WASM engine, and what is tried after it. A call of the exported function takes the
-- fuel that the store has left and gives its result and what is left then; `none` is a trap, also for
-- want of fuel, and ends the evaluation.
pub mod Agreement
use continuous_agent.Prelude.{
  ℕ, zero, suc, ◌+◌, Bool, true, false, Option, none, some, ◌>>=◌, List, [], ◌∷◌, ◌++◌, length,
  if◌then◌else◌,
}
use continuous_agent.Prelude.Int.{ℤ, pos, ◌+ℤ◌, ◌-ℤ◌, leb_ℤ}
use continuous_agent.Packing.{Scores, Best, Ratio, lower, sum, fitness}

module _ {S : Type 0} (scores : Scores S) (priority_fn : ℕ → ℤ → ℤ → Option (S × ℕ)) where
  -- `if score > max_score`
  abbrev pub improve : ℕ → S → Best S → Best S
  improve idx score b =
      if scores.gt score b.max_score then record { best_idx = some idx; max_score = score } else b

  -- The loop over the bins.
  unfoldable pub choose_or_trap : ℤ → ℕ → List ℤ → ℕ → Best S → Option (Best S × ℕ)
  choose_or_trap item idx [] fuel b = some (b, fuel)
  choose_or_trap item idx (cap ∷ bins) fuel b =
      (if leb_ℤ item cap
        then (priority_fn fuel item cap >>= λ (score, left). some (improve idx score b, left))
        else some (b, fuel))
      >>= λ (b', left). choose_or_trap item (suc idx) bins left b'

  module _ (bin_size : ℤ) where
    abbrev pub put_wasm : ℤ → List ℤ → Option ℕ → List ℤ
    put_wasm item bins (some i) = lower i item bins
    put_wasm item bins none = bins ++ (bin_size -ℤ item) ∷ []

    -- `for item in seq`
    unfoldable pub pack_or_trap : List ℤ → List ℤ → ℕ → Option (List ℤ × ℕ)
    unfolding choose_or_trap lower
    pack_or_trap [] bins fuel = some (bins, fuel)
    pack_or_trap (item ∷ seq) bins fuel =
        choose_or_trap item 0 bins fuel (record { best_idx = none; max_score = scores.minus_inf })
        >>= λ (b, left). pack_or_trap seq (put_wasm item bins b.best_idx) left

    -- `for seq in sequences`; the fuel is one budget for all.
    unfoldable pub simulate_or_trap : List (List ℤ) → ℕ → ℤ → ℕ → Option (ℕ × ℤ)
    unfolding pack_or_trap sum
    simulate_or_trap [] total_bins total_vol fuel = some (total_bins, total_vol)
    simulate_or_trap (seq ∷ sequences) total_bins total_vol fuel =
        pack_or_trap seq [] fuel >>= λ (bins, left).
        simulate_or_trap sequences (total_bins + length bins) (total_vol +ℤ sum seq) left

    -- `none`: `False, -1.0`. The efficiency is that of `run_simulation`, which asks no heuristic.
    unfoldable pub score_benchmark_wasm : ℕ → List (List ℤ) → Option Ratio
    unfolding simulate_or_trap
    score_benchmark_wasm fuel_budget sequences =
        simulate_or_trap sequences 0 (pos 0) fuel_budget >>= λ totals.
        some (fitness scores (λ item room. none) bin_size totals)

-- What `evaluate_heuristic_dual` finds and calls where the engine gives no score: whether there is a
-- Docker, whether an event loop runs, the simulation in the process and the one in a container.
pub record Host : Type 0 where
  pub has_docker : Bool
  pub loop_running : Bool
  pub local_fallback : List (List ℤ) → Option Ratio
  pub score_benchmark_sandboxed : List (List ℤ) → Option Ratio

abbrev pub second_tier : Host → List (List ℤ) → Option Ratio
second_tier host sequences =
    if host.has_docker
    then if host.loop_running
      then host.local_fallback sequences
      else host.score_benchmark_sandboxed sequences
    else host.local_fallback sequences

-- `none` of `compiled`: the code is refused by the compiler or by the engine. The bins have the
-- default size.
unfoldable pub evaluate_heuristic_dual :
    {S : Type 0}
    → Scores S
    → Option (ℕ → ℤ → ℤ → Option (S × ℕ))
    → ℕ
    → Host
    → List (List ℤ)
    → Option Ratio
unfolding score_benchmark_wasm
evaluate_heuristic_dual scores compiled fuel_budget host sequences =
    elim (compiled >>= λ priority_fn.
    score_benchmark_wasm scores priority_fn (pos 100) fuel_budget sequences) [
      | some score ↦ some score
      | none ↦ second_tier host sequences
    ]
