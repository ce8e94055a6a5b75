-- ===== src/Packing/Examples.antt =====
-- Tests of the packing and of its fingerprint on small heuristics.
use continuous_agent.Prelude.{
  ℕ, ◌-◌, ◌≡◌, refl, false, Option, none, some, List, [], ◌∷◌, ltb, length, arith, map,
  if◌then◌else◌,
}
use continuous_agent.Prelude.Int.{ℤ, pos, pos_part, ◌<ℤ◌, ◌+ℤ◌, ◌-ℤ◌}
use continuous_agent.Packing.{Scores, pack, run_simulation, lower, sum, scale}
use continuous_agent.Packing.Placement.{IsAnyFit}
use continuous_agent.Packing.AnyFit.{pack-any_fit}
use continuous_agent.Packing.Fingerprint.{decision_log}
use continuous_agent.Packing.Wasm.{score_benchmark_wasm, Host, evaluate_heuristic_dual}
use continuous_agent.Packing.Wasm.Agreement.{Answers, score_benchmark_wasm-run_simulation}
use continuous_agent.Packing.Fingerprint.Replay.{decision_log-determines}

-- -inf is 0, the penalty 1, and the scores of the heuristics below are larger.
abbrev scores : Scores ℕ
scores = record { gt = λ a b. ltb b a; minus_inf = 0; penalty = 1 }

-- `return 0`, as first fit.
abbrev first_fit : ℤ → ℤ → Option ℕ
first_fit item room = some 1000

-- `return item - bin_size`, as best fit.
abbrev best_fit : ℤ → ℤ → Option ℕ
best_fit item room = some (1000 - pos_part room)

abbrev probe : List ℤ
probe = pos 50 ∷ pos 60 ∷ pos 40 ∷ pos 50 ∷ []

packed_best : pack scores best_fit (pos 100) probe [] ≡ pos 0 ∷ pos 0 ∷ []
unfolding pack ◌-ℤ◌
packed_best = refl

first_fit_bins : length (pack scores first_fit (pos 100) probe []) ≡ 3
unfolding pack ◌-ℤ◌
first_fit_bins = refl

abbrev tied : List (List ℤ)
tied = (pos 60 ∷ pos 40 ∷ []) ∷ (pos 10 ∷ pos 95 ∷ []) ∷ []

first_fit-IsAnyFit : IsAnyFit scores first_fit
first_fit-IsAnyFit item room = refl

pack-any_fit_example :
    scale (length (pack scores first_fit (pos 100) probe [])) (pos 100) <ℤ sum probe +ℤ sum probe
unfolding sum ◌+ℤ◌
pack-any_fit_example =
    pack-any_fit scores first_fit (pos 100) first_fit-IsAnyFit probe (ground arith) (omega arith)
      (rw first_fit_bins (omega arith))

first_log : decision_log scores first_fit (pos 100) tied ≡ some (0 ∷ 0 ∷ 0 ∷ 1 ∷ [])
unfolding decision_log ◌-ℤ◌
first_log = refl

best_log : decision_log scores best_fit (pos 100) tied ≡ some (0 ∷ 0 ∷ 0 ∷ 1 ∷ [])
unfolding decision_log ◌-ℤ◌
best_log = refl

decision_log-determines_example :
    map (λ seq. pack scores first_fit (pos 100) seq []) tied
    ≡ map (λ seq. pack scores best_fit (pos 100) seq []) tied
decision_log-determines_example =
    decision_log-determines scores scores first_fit best_fit (pos 100) tied (0 ∷ 0 ∷ 0 ∷ 1 ∷ [])
      first_log best_log

-- An engine in which each call costs five units.
abbrev metered : ℕ → ℤ → ℤ → Option (ℕ × ℕ)
metered fuel item cap = if ltb fuel 5 then none else some (1000, fuel - 5)

metered-Answers : Answers metered first_fit 5
metered-Answers = record {
  answers = λ fuel item cap h.
      let enough : ltb fuel 5 ≡ false = ground arith in
      (1000, fuel - 5, rw enough refl, refl, omega (arith, h));
}

out_of_fuel : score_benchmark_wasm scores metered (pos 100) 7 (probe ∷ []) ≡ none
unfolding score_benchmark_wasm ◌+ℤ◌ ◌-ℤ◌ lower scale
out_of_fuel = refl

-- Out of fuel and without Docker, the local simulation answers.
abbrev bare_host : Host
bare_host = record {
  has_docker = false;
  loop_running = false;
  local_fallback = λ sequences. some (run_simulation scores first_fit (pos 100) sequences);
  score_benchmark_sandboxed = λ sequences. none;
}

falls_back :
    evaluate_heuristic_dual scores (some metered) 7 bare_host (probe ∷ [])
    ≡ some (run_simulation scores first_fit (pos 100) (probe ∷ []))
unfolding evaluate_heuristic_dual ◌+ℤ◌ ◌-ℤ◌ lower scale
falls_back = refl

score_benchmark_wasm-run_simulation_example :
    score_benchmark_wasm scores metered (pos 100) 1000 (probe ∷ [])
    ≡ some (run_simulation scores first_fit (pos 100) (probe ∷ []))
score_benchmark_wasm-run_simulation_example =
    score_benchmark_wasm-run_simulation scores metered first_fit 5 metered-Answers (pos 100) 1000
      (probe ∷ []) (omega arith)
