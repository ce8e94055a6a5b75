-- ===== src/Memory/Examples.antt =====
-- Calls of the memory stores.
use continuous_agent.Prelude.{ℕ, ◌<◌, ◌≡◌, refl, true, some, List, [], ◌∷◌, length, arith}
use continuous_agent.Prelude.Sort.{filter, sort_by, insert_by}
use continuous_agent.Memory.{
  Log, Memory, Call, to_record, to_compact, to_update, record_cycle, update_core_memory,
  last_compacted, uncompacted, maybe_compact, handle_calls,
}
use continuous_agent.Memory.Compaction.{IsOrderly, handle_calls-IsOrderly}

abbrev log : ℕ → Log
log iteration = record { iteration = iteration; summary = "idle"; tool_calls_count = 0 }

abbrev empty : Memory
empty = record { execution_logs = []; episodic_summaries = []; core_memory = [] }

abbrev calls : List Call
calls =
    to_record (log 1)
    ∷ to_record (log 2)
    ∷ to_compact (some "two idle cycles")
    ∷ to_update "goal" "pack"
    ∷ to_record (log 3)
    ∷ []

one_left : length (uncompacted (handle_calls true 2 calls empty)) ≡ 1
unfolding handle_calls record_cycle maybe_compact update_core_memory filter sort_by insert_by
    last_compacted
one_left = refl

handle_calls-IsOrderly_example :
    IsOrderly (handle_calls true 2 calls empty)
    × IsOrderly (maybe_compact true 2 (some "three") (handle_calls true 2 calls empty))
    × (length (uncompacted (maybe_compact true 2 (some "three") (handle_calls true 2 calls empty)))
        < 2)
handle_calls-IsOrderly_example =
    handle_calls-IsOrderly true 2 calls empty "three" (tt, tt, omega arith) (omega arith)
