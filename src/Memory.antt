-- ===== src/Memory.antt =====
-- agent/memory.py (`record_cycle`) and agent/cognitive_memory.py (core memory and `maybe_compact`): the
-- tables of the store as lists in the order of their ids. The summary that the language model writes
-- is an argument, `none` where its call raised.
pub mod Compaction
mod Examples
use continuous_agent.Prelude.{
  ℕ, ◌-◌, max, String, Bool, true, false, Option, none, some, List, [], ◌∷◌, ◌++◌, length, drop,
  leb, ltb, if◌then◌else◌,
}
use continuous_agent.Prelude.Maps.{store, remove}
use continuous_agent.Prelude.Sort.{filter, sort_by}

-- A row of `execution_logs`.
pub record Log : Type 0 where
  pub iteration : ℕ
  pub summary : String
  pub tool_calls_count : ℕ

-- A row of `episodic_summaries`.
pub record Episode : Type 0 where
  pub start_iteration : ℕ
  pub end_iteration : ℕ
  pub dense_summary : String

pub record Memory : Type 0 where
  pub execution_logs : List Log
  pub episodic_summaries : List Episode
  pub core_memory : List (String × String)

abbrev pub history_limit : ℕ
history_limit = 500

-- `DELETE ... WHERE id NOT IN (SELECT id ... ORDER BY id DESC LIMIT 500)`
abbrev pub prune : List Log → List Log
prune logs = drop (length logs - history_limit) logs

unfoldable pub record_cycle : Log → Memory → Memory
record_cycle log s = record {
  execution_logs = prune (s.execution_logs ++ log ∷ []);
  episodic_summaries = s.episodic_summaries;
  core_memory = s.core_memory;
}

unfoldable pub update_core_memory : String → String → Memory → Memory
update_core_memory key value s = record {
  execution_logs = s.execution_logs;
  episodic_summaries = s.episodic_summaries;
  core_memory = store key value s.core_memory;
}

unfoldable pub delete_core_memory : String → Memory → Memory
delete_core_memory key s = record {
  execution_logs = s.execution_logs;
  episodic_summaries = s.episodic_summaries;
  core_memory = remove key s.core_memory;
}

-- `SELECT COALESCE(MAX(end_iteration), 0)`
unfoldable pub last_compacted : List Episode → ℕ
last_compacted [] = 0
last_compacted (e ∷ episodes) = max e.end_iteration (last_compacted episodes)

-- `WHERE iteration > ?`, and `ORDER BY iteration ASC`
abbrev pub uncompacted : Memory → List Log
uncompacted s =
    filter (λ log. ltb (last_compacted s.episodic_summaries) log.iteration) s.execution_logs

abbrev pub earlier : Log → Log → Bool
earlier a b = leb a.iteration b.iteration

abbrev pub last_iteration : Log → List Log → ℕ
last_iteration l [] = l.iteration
last_iteration l (k ∷ ks) = last_iteration k ks

-- The rows to compress as one episode; without a row, the code raises.
abbrev pub add_episode : String → List Log → Memory → Memory
add_episode new_summary [] s = s
add_episode new_summary (l ∷ ls) s = record {
  execution_logs = s.execution_logs;
  episodic_summaries =
      s.episodic_summaries
      ++ record {
        start_iteration = l.iteration;
        end_iteration = last_iteration l ls;
        dense_summary = new_summary;
      }
        ∷ [];
  core_memory = s.core_memory;
}

abbrev pub compact_with : Option String → Memory → Memory
compact_with none s = s
compact_with (some new_summary) s = add_episode new_summary (sort_by earlier (uncompacted s)) s

-- Without a client nothing happens; an exception leaves the tables as they are.
unfoldable pub maybe_compact : Bool → ℕ → Option String → Memory → Memory
unfolding filter sort_by last_compacted
maybe_compact client compaction_threshold new_summary s =
    if client
    then if ltb (length (uncompacted s)) compaction_threshold then s else compact_with new_summary s
    else s

-- The calls of the stores, one after the other.
pub data Call : Type 0 where
  to_record : Log → Call
  to_compact : Option String → Call
  to_update : (key value : String) → Call
  to_delete : (key : String) → Call

module _ (client : Bool) (compaction_threshold : ℕ) where
  abbrev pub handle : Call → Memory → Memory
  handle (to_record log) s = record_cycle log s
  handle (to_compact new_summary) s = maybe_compact client compaction_threshold new_summary s
  handle (to_update key value) s = update_core_memory key value s
  handle (to_delete key) s = delete_core_memory key s

  unfoldable pub handle_calls : List Call → Memory → Memory
  handle_calls [] s = s
  handle_calls (c ∷ calls) s = handle_calls calls (handle c s)
