-- ===== src/Lib.antt =====
-- Continuous-agent: models and proofs for the agent that searches for bin-packing heuristics.
--
-- A language model writes candidate heuristics as Python text. The staged pipeline admits a text by
-- an allow-list on its syntax tree, compiles it to WebAssembly for a smoke test, looks for a
-- counterexample to two contracts with an SMT solver, and scores it by simulated online packing; the
-- result is memoized. Scored heuristics live on islands, are selected by NSGA-II and profiled for
-- stagnation. Around this run a heartbeat loop with a circuit breaker, retries of the model's API,
-- and a rate limiter whose cooldowns are stored. Scripts back up the database of the agent and
-- restore it. The memory of the agent is a history of cycles, compacted into episodes, which a hybrid
-- search retrieves.
--
-- The files, and the code that each models:
--   Heuristic.antt            the syntax trees of candidates and what Python computes on them
--     Wat, Wat/Correct        agent/wat_compiler.py
--     Walk, Guard, .../Pure, Purity  agent/ast_guard.py (`ast.walk`, `sanitize_ast`)
--     Symbolic, Contract      agent/cegis_verifier.py (`ASTZ3Transpiler`, `SymbolicContractVerifier`)
--   Packing.antt              problem.py and evaluator_harness.py (`run_simulation`)
--     Fingerprint             behavior.py (`get_behavioral_fingerprint`)
--     Wasm, .../Agreement     agent/wasm_sandbox.py (`score_benchmark_wasm`) and sandbox.py
--   RateLimit.antt            agent/rate_limiter.py (`AsyncTokenBucket`)
--     Domain, Restart         `DomainRateLimiter` and agent/cooldown_store.py
--     Window                  sequences of attempts and pauses of one bucket
--   Evolution.antt            the search
--     Frontier, Health        agent/island_profiler.py
--     Nsga, .../Crowding      agent/nsga2.py
--     Cluster                 agent/restartable_island.py
--   Pipeline.antt             agent/staged_pipeline.py, agent/diagnostics.py, agent/ast_cache.py
--     Telemetry               agent/cegis_tracker.py
--   Cegis.antt, Cegis/Probes  agent/dynamic_suite.py and cegis_loop.py
--   Scheduler.antt, .../Cycle agent/scheduler.py (`run_supervisory_cycle`)
--   Control/Retry             agent/circuit_breaker.py (`call_with_retry`)
--   Control/Heartbeat         agent/core.py (`run`, `pause`, `resume`, `stop`, `trigger_cycle`)
--   Backup.antt               the file system and what may fail of scripts/backup_db.py and restore_db.py
--     Exec, Keeps             actions that may raise or exit, and what they keep
--     Snapshot, .../Rotation  scripts/backup_db.py
--     Restore                 scripts/restore_db.py; .../Safety, Success, Rejects, Readonly: what it does
--     RoundTrip               the two scripts together
--   FunSearch.antt            agent/funsearch_service.py: islands of NSGA-II individuals
--     Restart, Ring, Migration  `execute_cataclysmic_restart` and `execute_ring_migration`
--     Sampling                agent/adaptive_sampling.py and its use by an island
--     Worker, .../Champion    `start`, `stop` and the results of `_island_worker`
--   Retrieval.antt, .../Documents, Fusion  agent/hybrid_search.py (`search`)
--   Memory.antt, .../Compaction  agent/memory.py and agent/cognitive_memory.py (`maybe_compact`)
--   Prelude.antt              names, lists, integers and dictionaries that the modules share
-- Each Examples file holds runs on concrete inputs.
--
-- Conventions. State is a record, an operation a function from state to state, an exception a value
-- (`none`, or a constructor of its own). Dictionaries are association lists in the order of their
-- keys. The heartbeat loop is a step relation whose steps are the handlers and the stretches of a
-- coroutine between two blocking awaits. The scripts on the database are actions that may raise or
-- exit, and a list of faults says which of their operations on the disk fail.
--
-- Numbers. Item sizes and capacities are whole numbers, on which floats are exact up to 2 ^ 53, a
-- bound that the theorems on fitness and on bins assume; fitness and packing ratios are quotients or
-- integers in a fixed unit; times of the rate limiter are ticks and tokens are units. The rounding of
-- floating-point numbers is not modelled. Expressions are evaluated in a number type that is a
-- parameter with its operations: Python's numbers, against the floats of the compiled code, for the
-- compiler, and the reals of the solver for the verifier.
--
-- Fuel. The fuel of a WebAssembly run is that of the source. Of the model's own loops only that over
-- the fronts of `fast_non_dominated_sort` runs on fuel, one more than the
-- number of individuals: every round but the last takes at least one id out of those with a positive
-- count.
--
-- Parameters. The Python parser (the tree is the argument), the WebAssembly engine with the
-- documented effect of its instructions, Z3 with the soundness of its `unsat`, SHA-256, the hash of
-- a canonical text, logarithms, random choices, clocks, the answers of the API, the number syntax of
-- a Retry-After header, and for the backups SQLite, gzip and the paths that pathlib makes.
--
-- Not modelled: prompts and calls of language models, the dashboard, metrics and logging, SQL beyond
-- the rows that a component reads and writes, subprocesses and containers, the timers of
-- the scheduler, embeddings and the vector store, and the Lean synthesis.
pub mod Prelude
pub mod Heuristic
pub mod Packing
pub mod RateLimit
pub mod Evolution
pub mod Pipeline
pub mod Cegis
pub mod Scheduler
pub mod Control
pub mod Backup
pub mod FunSearch
pub mod Retrieval
pub mod Memory
