-- ===== src/Pipeline/Memo.antt =====
-- agent/staged_pipeline.py and agent/ast_cache.py: what the stages and the memo guarantee.
use continuous_agent.Prelude.{
  ◌≡◌, ◌≢◌, ◌↔◌, refl, ap, String, Bool, true, false, Option, none, some,
}
use continuous_agent.Prelude.Int.{ℤ, pos, ltb_ℤ}
use continuous_agent.Prelude.Maps.{find, find-store_self}
use continuous_agent.Pipeline.{
  PipelineDiagnostic, Memoized, Cache, Guarded, admitted, security_error, syntax_error, Smoke,
  passed, trapped, bypassed, Stages, get, put, clear, benchmark_stage, probe_stage, smoke_stage,
  guard_stage, finish, resume, evaluate,
}
use continuous_agent.Pipeline.Telemetry.{Tracker}

get-put : (hash : String) (row : Memoized) (c : Cache) → (get hash (put hash row c)).0 ≡ some row
unfolding get put
get-put hash row c = rw (find-store_self hash row c.memory_cache) refl

-- The table answers where the dictionary is empty.
get-clear-put :
    (hash : String) (row : Memoized) (c : Cache)
    → (get hash (clear false (put hash row c))).0 ≡ some row
unfolding get put clear
get-clear-put hash row c = rw (find-store_self hash row c.table) refl

module _ (stages : Stages) (compute_ast_hash : String → String) (baseline_threshold : ℤ) where
  abbrev pub Admitted : String → Type 0
  Admitted code =
      (stages.sanitize_ast code ≡ admitted)
      × (stages.smoke_test code ≢ trapped)
      × (stages.is_refuted code ≡ false)
      × ((stages.evaluate_heuristic_dual code).0 ≡ true)

  benchmark_stage_lem :
      (code : String) (r : Bool × ℤ)
      → (benchmark_stage stages compute_ast_hash baseline_threshold code r).success ≡ r.0
  benchmark_stage_lem code (true, fitness) = refl
  benchmark_stage_lem code (false, fitness) = refl

  -- What one stage passes on.
  probe_stage_lem :
      (code : String) (b : Bool)
      → (probe_stage stages compute_ast_hash baseline_threshold code b).0.success ≡ true
        ↔ ((b ≡ false) × ((stages.evaluate_heuristic_dual code).0 ≡ true))
  probe_stage_lem code true = (λ h. cc, λ (e, h). cc)
  probe_stage_lem code false =
      let same = benchmark_stage_lem code (stages.evaluate_heuristic_dual code) in
      (λ h. (refl, cc), λ (e, h). cc)

  smoke_stage_lem :
      (code : String) (s : Smoke)
      → (smoke_stage stages compute_ast_hash baseline_threshold code s).0.success ≡ true ↔ (
          (s ≢ trapped)
          × (stages.is_refuted code ≡ false)
          × ((stages.evaluate_heuristic_dual code).0 ≡ true))
  smoke_stage_lem code trapped = (λ h. cc, λ (n, e, h). absurd (n refl))
  smoke_stage_lem code passed =
      let (to, from) = probe_stage_lem code (stages.is_refuted code) in
      (λ h. let (e, k) = to h in (λ p. cc, e, k), λ (n, e, h). from (e, h))
  smoke_stage_lem code bypassed =
      let (to, from) = probe_stage_lem code (stages.is_refuted code) in
      (λ h. let (e, k) = to h in (λ p. cc, e, k), λ (n, e, h). from (e, h))

  guard_stage_lem :
      (code : String) (g : Guarded)
      → (guard_stage stages compute_ast_hash baseline_threshold code g).0.success ≡ true ↔ (
          (g ≡ admitted)
          × (stages.smoke_test code ≢ trapped)
          × (stages.is_refuted code ≡ false)
          × ((stages.evaluate_heuristic_dual code).0 ≡ true))
  guard_stage_lem code security_error = (λ h. cc, λ (e, n, r, h). cc)
  guard_stage_lem code syntax_error = (λ h. cc, λ (e, n, r, h). cc)
  guard_stage_lem code admitted =
      let (to, from) = smoke_stage_lem code (stages.smoke_test code) in
      (λ h. let (n, r, k) = to h in (refl, n, r, k), λ (e, n, r, h). from (n, r, h))

  evaluate-missed :
      (code : String) (c : Cache) (t : Tracker)
      → find (compute_ast_hash code) c.memory_cache ≡ none
      → find (compute_ast_hash code) c.table ≡ none
      → evaluate stages compute_ast_hash baseline_threshold code c t
        ≡ finish stages compute_ast_hash baseline_threshold code
            (guard_stage stages compute_ast_hash baseline_threshold code (stages.sanitize_ast code))
            c
            t
  unfolding evaluate get
  evaluate-missed code c t memory table = rw (memory, table) refl

  -- A code that is not in the cache is evaluated successfully exactly where the guard admits it,
  -- the smoke test does not trap, no counterexample is found and the benchmark runs.
  pub evaluate-success_iff :
      (code : String) (c : Cache) (t : Tracker)
      → find (compute_ast_hash code) c.memory_cache ≡ none
      → find (compute_ast_hash code) c.table ≡ none
      → (evaluate stages compute_ast_hash baseline_threshold code c t).0.success ≡ true
        ↔ Admitted code
  evaluate-success_iff code c t memory table =
      rw (evaluate-missed code c t memory table) (guard_stage_lem code (stages.sanitize_ast code))

  -- What a diagnostic has after a hit of the memo.
  abbrev pub Recalls : PipelineDiagnostic → PipelineDiagnostic → Type 0
  Recalls d d' =
      (d'.fitness ≡ d.fitness) × (d'.origin ≡ d.origin) × (d'.success ≡ ltb_ℤ (pos 0) d.fitness)

  resume-Recalls :
      (code : String) (d : PipelineDiagnostic) (o : Option Memoized × Cache) (t : Tracker)
      → o.0 ≡ some (record { fitness = d.fitness; origin = d.origin })
      → Recalls d (resume stages compute_ast_hash baseline_threshold code o t).0
        × ((resume stages compute_ast_hash baseline_threshold code o t).2 ≡ t)
  resume-Recalls code d (none, c) t e = cc
  resume-Recalls code d (some row, c) t e =
      let e' : row ≡ record { fitness = d.fitness; origin = d.origin } = cc e in
      let f : row.fitness ≡ d.fitness = ap (λ (r : Memoized). r.fitness) e' in
      ((f, ap (λ (r : Memoized). r.origin) e', rw f refl), refl)

  evaluate-hit :
      (code : String) (d : PipelineDiagnostic) (c : Cache) (t : Tracker)
      → (get (compute_ast_hash code) c).0 ≡ some (record { fitness = d.fitness; origin = d.origin })
      → Recalls d (evaluate stages compute_ast_hash baseline_threshold code c t).0
        × ((evaluate stages compute_ast_hash baseline_threshold code c t).2 ≡ t)
  unfolding evaluate
  evaluate-hit code d c t e = resume-Recalls code d (get (compute_ast_hash code) c) t e

  evaluate-puts :
      (code : String) (c : Cache) (t : Tracker)
      → find (compute_ast_hash code) c.memory_cache ≡ none
      → find (compute_ast_hash code) c.table ≡ none
      → let first = evaluate stages compute_ast_hash baseline_threshold code c t in
        first.1
        ≡ put
            (compute_ast_hash code)
            (record { fitness = first.0.fitness; origin = first.0.origin })
            c
  evaluate-puts code c t memory table = rw (evaluate-missed code c t memory table) refl

  -- After a code that was not in the cache, a code with the same hash is answered from the memo, in
  -- the same process and, from the table, in a later one: with the fitness and the origin of the
  -- first, with no counterexample recorded again, and as a success exactly where the fitness is
  -- above 0.
  pub evaluate-memo :
      (code code' : String) (c : Cache) (t t' : Tracker)
      → compute_ast_hash code' ≡ compute_ast_hash code
      → find (compute_ast_hash code) c.memory_cache ≡ none
      → find (compute_ast_hash code) c.table ≡ none
      → let first = evaluate stages compute_ast_hash baseline_threshold code c t in
        let again = evaluate stages compute_ast_hash baseline_threshold code' first.1 t' in
        let later =
          evaluate stages compute_ast_hash baseline_threshold code' (clear false first.1) t' in
        Recalls first.0 again.0 × (again.2 ≡ t') × Recalls first.0 later.0 × (later.2 ≡ t')
  evaluate-memo code code' c t t' same memory table =
      let first = evaluate stages compute_ast_hash baseline_threshold code c t in
      let row : Memoized = record { fitness = first.0.fitness; origin = first.0.origin } in
      let puts = evaluate-puts code c t memory table in
      let again =
        evaluate-hit code' first.0 first.1 t'
          (rw (same, puts) (get-put (compute_ast_hash code) row c)) in
      let later =
        evaluate-hit code' first.0 (clear false first.1) t'
          (rw (same, puts) (get-clear-put (compute_ast_hash code) row c)) in
      (again.0, again.1, later.0, later.1)
