-- ===== src/Pipeline/Examples.antt =====
-- Tests of the staged pipeline on a candidate that passes every stage.
use continuous_agent.Prelude.{◌≡◌, ◌↔◌, refl, String, true, false, List, [], ◌∷◌, arith}
use continuous_agent.Prelude.Int.{pos}
use continuous_agent.Pipeline.{Stages, Cache, admitted, passed, clear, evaluate}
use continuous_agent.Pipeline.Telemetry.{
  Tracker, verified, IsSound, Call, event, counterexample, calls, calls-IsSound,
}
use continuous_agent.Pipeline.Memo.{Admitted, Recalls, evaluate-success_iff, evaluate-memo}

abbrev stages : Stages
stages = record {
  sanitize_ast = λ code. admitted;
  smoke_test = λ code. passed;
  is_refuted = λ code. false;
  evaluate_heuristic_dual = λ code. (true, pos 90);
}

abbrev hash : String → String
hash code = code

abbrev empty : Cache
empty = record { memory_cache = []; table = [] }

abbrev fresh : Tracker
fresh = record {
  max_history = 2;
  history = [];
  total_checks = 0;
  total_verified = 0;
  total_violations = 0;
  active_probes_count = 0;
}

evaluate-success_iff_example :
    (evaluate stages hash (pos 82) "item - bin_size" empty fresh).0.success ≡ true
    ↔ Admitted stages hash (pos 82) "item - bin_size"
evaluate-success_iff_example =
    evaluate-success_iff stages hash (pos 82) "item - bin_size" empty fresh refl refl

evaluate-memo_example :
    let first = evaluate stages hash (pos 82) "item - bin_size" empty fresh in
    let again = evaluate stages hash (pos 82) "item - bin_size" first.1 fresh in
    let later = evaluate stages hash (pos 82) "item - bin_size" (clear false first.1) fresh in
    Recalls stages hash (pos 82) first.0 again.0
    × (again.2 ≡ fresh)
    × Recalls stages hash (pos 82) first.0 later.0
    × (later.2 ≡ fresh)
evaluate-memo_example =
    evaluate-memo stages hash (pos 82) "item - bin_size" "item - bin_size" empty fresh fresh refl
      refl refl

abbrev three_calls : List Call
three_calls = counterexample ∷ event verified 5 ∷ counterexample ∷ []

calls-IsSound_example : IsSound (calls three_calls fresh)
calls-IsSound_example = calls-IsSound three_calls fresh (tt, omega arith, omega arith)
