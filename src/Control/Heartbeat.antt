-- ===== src/Control/Heartbeat.antt =====
-- agent/core.py: the heartbeat loop of `ContinuousAgent` as a step relation. What a step of the
-- agent does is left out but for whether it raises; publishing and logging are left out. `run` is
-- started once, as main.py does.
pub mod Safety
use continuous_agent.Prelude.{ℕ, zero, suc, ◌+◌, ◌≡◌, Bool, true, false, leb, if◌then◌else◌}

-- Where `run` is: before its start, at the `while`, past the pause event and waiting for the lock, in `step`, in `wait_for`, or returned.
pub data Loop : Type 0 where
  not_started at_top at_lock in_step in_wait ended : Loop

-- Who holds `_step_lock`.
pub data Lock : Type 0 where
  free by_loop by_task : Lock

pub record Agent : Type 0 where
  pub is_running : Bool
  pub is_paused : Bool
  pub pause_event : Bool
  pub trigger_event : Bool
  pub step_lock : Lock
  pub failure_streak : ℕ
  pub loop : Loop
  -- The tasks of `_run_isolated_step` that wait for the lock.
  pub isolated_tasks : ℕ

unfoldable pub pause : Agent → Agent
pause s = record {
  is_running = s.is_running;
  is_paused = true;
  pause_event = false;
  trigger_event = s.trigger_event;
  step_lock = s.step_lock;
  failure_streak = s.failure_streak;
  loop = s.loop;
  isolated_tasks = s.isolated_tasks;
}

unfoldable pub resume : Agent → Agent
resume s = record {
  is_running = s.is_running;
  is_paused = false;
  pause_event = true;
  trigger_event = s.trigger_event;
  step_lock = s.step_lock;
  failure_streak = s.failure_streak;
  loop = s.loop;
  isolated_tasks = s.isolated_tasks;
}

unfoldable pub stop : Agent → Agent
stop s = record {
  is_running = false;
  is_paused = s.is_paused;
  pause_event = true;
  trigger_event = s.trigger_event;
  step_lock = s.step_lock;
  failure_streak = s.failure_streak;
  loop = s.loop;
  isolated_tasks = s.isolated_tasks;
}

abbrev pub is_free : Lock → Bool
is_free free = true
is_free by_loop = false
is_free by_task = false

-- `trigger_cycle` where the lock is not held.
abbrev pub trigger : Bool → Agent → Agent
trigger true s = record {
  is_running = s.is_running;
  is_paused = s.is_paused;
  pause_event = s.pause_event;
  trigger_event = s.trigger_event;
  step_lock = s.step_lock;
  failure_streak = s.failure_streak;
  loop = s.loop;
  isolated_tasks = suc s.isolated_tasks;
}
trigger false s = record {
  is_running = s.is_running;
  is_paused = s.is_paused;
  pause_event = s.pause_event;
  trigger_event = true;
  step_lock = s.step_lock;
  failure_streak = s.failure_streak;
  loop = s.loop;
  isolated_tasks = s.isolated_tasks;
}

unfoldable pub trigger_cycle : Agent → Agent
trigger_cycle s = if is_free s.step_lock then trigger s.is_paused s else s

-- `self.is_running = True`
unfoldable pub start : Agent → Agent
start s = record {
  is_running = true;
  is_paused = s.is_paused;
  pause_event = s.pause_event;
  trigger_event = s.trigger_event;
  step_lock = s.step_lock;
  failure_streak = s.failure_streak;
  loop = at_top;
  isolated_tasks = s.isolated_tasks;
}

-- Past `_pause_event.wait()`, to the lock or out of the loop.
unfoldable pub pass : Agent → Agent
pass s =
    if s.is_running
    then record {
      is_running = s.is_running;
      is_paused = s.is_paused;
      pause_event = s.pause_event;
      trigger_event = s.trigger_event;
      step_lock = s.step_lock;
      failure_streak = s.failure_streak;
      loop = at_lock;
      isolated_tasks = s.isolated_tasks;
    }
    else record {
      is_running = s.is_running;
      is_paused = s.is_paused;
      pause_event = s.pause_event;
      trigger_event = s.trigger_event;
      step_lock = s.step_lock;
      failure_streak = s.failure_streak;
      loop = ended;
      isolated_tasks = s.isolated_tasks;
    }

unfoldable pub enter : Agent → Agent
enter s = record {
  is_running = s.is_running;
  is_paused = s.is_paused;
  pause_event = s.pause_event;
  trigger_event = s.trigger_event;
  step_lock = by_loop;
  failure_streak = s.failure_streak;
  loop = in_step;
  isolated_tasks = s.isolated_tasks;
}

unfoldable pub step_succeeds : Agent → Agent
step_succeeds s = record {
  is_running = s.is_running;
  is_paused = s.is_paused;
  pause_event = s.pause_event;
  trigger_event = s.trigger_event;
  step_lock = free;
  failure_streak = 0;
  loop = in_wait;
  isolated_tasks = s.isolated_tasks;
}

abbrev pub fail : Agent → Agent
fail s = record {
  is_running = s.is_running;
  is_paused = s.is_paused;
  pause_event = s.pause_event;
  trigger_event = s.trigger_event;
  step_lock = free;
  failure_streak = suc s.failure_streak;
  loop = in_wait;
  isolated_tasks = s.isolated_tasks;
}

abbrev pub end_loop : Agent → Agent
end_loop s = record {
  is_running = s.is_running;
  is_paused = s.is_paused;
  pause_event = s.pause_event;
  trigger_event = s.trigger_event;
  step_lock = s.step_lock;
  failure_streak = s.failure_streak;
  loop = ended;
  isolated_tasks = s.isolated_tasks;
}

-- The `except` of the loop, with the circuit breaker.
unfoldable pub step_fails : ℕ → Agent → Agent
unfolding pause
step_fails max_failures s =
    if leb max_failures (suc s.failure_streak) then end_loop (pause (fail s)) else fail s

-- `wait_for` returns: triggered, or after the interval.
abbrev pub wake : Bool → Agent → Agent
wake true s = record {
  is_running = s.is_running;
  is_paused = s.is_paused;
  pause_event = s.pause_event;
  trigger_event = false;
  step_lock = s.step_lock;
  failure_streak = s.failure_streak;
  loop = at_top;
  isolated_tasks = s.isolated_tasks;
}
wake false s = record {
  is_running = s.is_running;
  is_paused = s.is_paused;
  pause_event = s.pause_event;
  trigger_event = s.trigger_event;
  step_lock = s.step_lock;
  failure_streak = s.failure_streak;
  loop = at_top;
  isolated_tasks = s.isolated_tasks;
}

unfoldable pub task_starts : ℕ → Agent → Agent
task_starts tasks s = record {
  is_running = s.is_running;
  is_paused = s.is_paused;
  pause_event = s.pause_event;
  trigger_event = s.trigger_event;
  step_lock = by_task;
  failure_streak = s.failure_streak;
  loop = s.loop;
  isolated_tasks = tasks;
}

unfoldable pub task_ends : Agent → Agent
task_ends s = record {
  is_running = s.is_running;
  is_paused = s.is_paused;
  pause_event = s.pause_event;
  trigger_event = s.trigger_event;
  step_lock = free;
  failure_streak = s.failure_streak;
  loop = s.loop;
  isolated_tasks = s.isolated_tasks;
}

-- One step of the event loop: a handler that runs to its end, or a coroutine up to its next `await`
-- that blocks. Past the pause event the loop returns where it is not running any more, else it
-- waits for the lock; at the `while` it returns where it is not running.
pub data Step (max_failures : ℕ) : Agent → Agent → Type 0 where
  pausing : (s : Agent) → Step max_failures s (pause s)
  resuming : (s : Agent) → Step max_failures s (resume s)
  stopping : (s : Agent) → Step max_failures s (stop s)
  triggering : (s : Agent) → Step max_failures s (trigger_cycle s)
  starting : (s : Agent) → s.loop ≡ not_started → Step max_failures s (start s)
  passing : (s : Agent) → s.loop ≡ at_top → s.pause_event ≡ true → Step max_failures s (pass s)
  entering : (s : Agent) → s.loop ≡ at_lock → s.step_lock ≡ free → Step max_failures s (enter s)
  leaving : (s : Agent) → s.loop ≡ at_top → s.is_running ≡ false → Step max_failures s (end_loop s)
  succeeding : (s : Agent) → s.loop ≡ in_step → Step max_failures s (step_succeeds s)
  failing : (s : Agent) → s.loop ≡ in_step → Step max_failures s (step_fails max_failures s)
  waking : (s : Agent) → s.loop ≡ in_wait → Step max_failures s (wake s.trigger_event s)
  timing_out : (s : Agent) → s.loop ≡ in_wait → Step max_failures s (wake false s)
  task_starting :
      (s : Agent) (tasks : ℕ)
      → s.isolated_tasks ≡ suc tasks
      → s.step_lock ≡ free
      → Step max_failures s (task_starts tasks s)
  task_ending : (s : Agent) → s.step_lock ≡ by_task → Step max_failures s (task_ends s)

pub data Steps (max_failures : ℕ) : Agent → Agent → Type 0 where
  done : (s : Agent) → Steps max_failures s s
  next : (s t u : Agent) → Step max_failures s t → Steps max_failures t u → Steps max_failures s u

-- `ContinuousAgent.__init__`
abbrev pub initial : Agent
initial = record {
  is_running = false;
  is_paused = false;
  pause_event = true;
  trigger_event = false;
  step_lock = free;
  failure_streak = 0;
  loop = not_started;
  isolated_tasks = 0;
}
