-- ===== src/Pipeline.antt =====
-- agent/staged_pipeline.py with agent/diagnostics.py and the cache of agent/ast_cache.py: the stages
-- of an evaluation, and its memo. Texts and times of a diagnostic are left out.
mod Examples
pub mod Telemetry
pub mod Memo
use continuous_agent.Prelude.{
  ℕ, String, Bool, true, false, Option, none, some, List, [], if◌then◌else◌,
}
use continuous_agent.Prelude.Int.{ℤ, pos, ltb_ℤ}
use continuous_agent.Prelude.Maps.{find, store}
use Telemetry.{Tracker, record_counterexample}

pub data FailureOrigin : Type 0 where
  llm_malformed ast_security_rejected wasm_trap z3_refuted lean_kernel benchmark_low : FailureOrigin

pub record PipelineDiagnostic : Type 0 where
  pub success : Bool
  pub origin : Option FailureOrigin
  pub candidate_code : String
  pub fitness : ℤ
  pub canonical_hash : String

-- A row of the cache: the fitness, and the origin of the diagnostic.
pub record Memoized : Type 0 where
  pub fitness : ℤ
  pub origin : Option FailureOrigin

-- `ASTEvaluationCache`: the dictionary of the process and the table, both by hash.
pub record Cache : Type 0 where
  pub memory_cache : List (String × Memoized)
  pub table : List (String × Memoized)

-- What the guard, and the smoke test in WASM, say of a code.
pub data Guarded : Type 0 where
  admitted security_error syntax_error : Guarded

pub data Smoke : Type 0 where
  passed trapped bypassed : Smoke

-- The stages: `sanitize_ast`, `compile_python_to_wat` with the WASM engine on the smoke sequences,
-- `verify` (is there a counterexample; an error of it counts as none), and `evaluate_heuristic_dual`
-- with its success and fitness.
pub record Stages : Type 0 where
  pub sanitize_ast : String → Guarded
  pub smoke_test : String → Smoke
  pub is_refuted : String → Bool
  pub evaluate_heuristic_dual : String → Bool × ℤ

abbrev pub remember : String → Memoized → Cache → Cache
remember ast_hash row c = record {
  memory_cache = store ast_hash row c.memory_cache;
  table = c.table;
}

abbrev pub get_from_table : String → Option Memoized → Cache → Option Memoized × Cache
get_from_table ast_hash none c = (none, c)
get_from_table ast_hash (some row) c = (some row, remember ast_hash row c)

abbrev pub get_from : String → Option Memoized → Cache → Option Memoized × Cache
get_from ast_hash (some row) c = (some row, c)
get_from ast_hash none c = get_from_table ast_hash (find ast_hash c.table) c

-- `get`, where the table can be read.
unfoldable pub get : String → Cache → Option Memoized × Cache
get ast_hash c = get_from ast_hash (find ast_hash c.memory_cache) c

-- `put`, where the table can be written.
unfoldable pub put : String → Memoized → Cache → Cache
put ast_hash row c = record {
  memory_cache = store ast_hash row c.memory_cache;
  table = store ast_hash row c.table;
}

-- `clear`
unfoldable pub clear : Bool → Cache → Cache
clear clear_db c = record { memory_cache = []; table = if clear_db then [] else c.table }

abbrev pub diagnose : Bool → Option FailureOrigin → ℤ → String → String → PipelineDiagnostic
diagnose success origin fitness code hash = record {
  success = success;
  origin = origin;
  candidate_code = code;
  fitness = fitness;
  canonical_hash = hash;
}

module _ (stages : Stages) (compute_ast_hash : String → String) (baseline_threshold : ℤ) where
  -- Stage 4: the benchmark.
  abbrev pub benchmark_stage : String → Bool × ℤ → PipelineDiagnostic
  benchmark_stage code (false, fitness) =
      diagnose false (some benchmark_low) (pos 0) code (compute_ast_hash code)
  benchmark_stage code (true, fitness) =
      diagnose true (if ltb_ℤ fitness baseline_threshold then some benchmark_low else none) fitness
        code (compute_ast_hash code)

  -- Stage 3: the diagnostic, and whether a counterexample is recorded.
  abbrev pub probe_stage : String → Bool → PipelineDiagnostic × Bool
  probe_stage code true =
      (diagnose false (some z3_refuted) (pos 0) code (compute_ast_hash code), true)
  probe_stage code false = (benchmark_stage code (stages.evaluate_heuristic_dual code), false)

  -- Stage 2: the smoke test.
  abbrev pub smoke_stage : String → Smoke → PipelineDiagnostic × Bool
  smoke_stage code trapped =
      (diagnose false (some wasm_trap) (pos 0) code (compute_ast_hash code), false)
  smoke_stage code passed = probe_stage code (stages.is_refuted code)
  smoke_stage code bypassed = probe_stage code (stages.is_refuted code)

  -- Stage 1: the guard.
  abbrev pub guard_stage : String → Guarded → PipelineDiagnostic × Bool
  guard_stage code security_error =
      (diagnose false (some ast_security_rejected) (pos 0) code (compute_ast_hash code), false)
  guard_stage code syntax_error =
      (diagnose false (some llm_malformed) (pos 0) code (compute_ast_hash code), false)
  guard_stage code admitted = smoke_stage code (stages.smoke_test code)

  -- Every stage ends with `put` and `return`.
  abbrev pub finish :
      String → PipelineDiagnostic × Bool → Cache → Tracker → PipelineDiagnostic × Cache × Tracker
  finish code (d, refuted) c t = (
    d,
    put (compute_ast_hash code) (record { fitness = d.fitness; origin = d.origin }) c,
    if refuted then record_counterexample t else t,
  )

  -- Stage 0: the memo.
  abbrev pub resume :
      String → Option Memoized × Cache → Tracker → PipelineDiagnostic × Cache × Tracker
  resume code (some row, c) t = (
    diagnose (ltb_ℤ (pos 0) row.fitness) row.origin row.fitness code (compute_ast_hash code),
    c,
    t,
  )
  resume code (none, c) t = finish code (guard_stage code (stages.sanitize_ast code)) c t

  unfoldable pub evaluate : String → Cache → Tracker → PipelineDiagnostic × Cache × Tracker
  unfolding get put record_counterexample
  evaluate code c t = resume code (get (compute_ast_hash code) c) t
