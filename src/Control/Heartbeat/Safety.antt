-- ===== src/Control/Heartbeat/Safety.antt =====
-- agent/core.py: what holds of the agent in every state that it can reach.
use continuous_agent.Prelude.{
  ℕ, suc, ◌<◌, ◌≡◌, ◌≢◌, refl, Bool, Bool-cases, true, false, leb, arith, inl, inr, ◌⊎◌,
}
use continuous_agent.Control.Heartbeat.{
  Loop, at_top, at_lock, in_step, in_wait, ended, Lock, free, by_loop, by_task, Agent, pause,
  resume, stop, is_free, trigger, trigger_cycle, start, pass, enter, step_succeeds, step_fails,
  wake, task_starts, task_ends, Step, pausing, resuming, stopping, triggering, starting, passing,
  entering, leaving, succeeding, failing, waking, timing_out, task_starting, task_ending, Steps,
  done, next, initial,
}

-- The lock is the loop's exactly while the loop is in a step; and below the limit of failures, the
-- loop goes on: at the limit it has ended.
abbrev pub Locked : Lock → Loop → Type 0
Locked by_loop l = l ≡ in_step
Locked by_task l = l ≢ in_step
Locked free l = l ≢ in_step

abbrev pub Tripped : ℕ → ℕ → Loop → Type 0
Tripped max streak l = (streak < max) ⊎ (l ≡ ended)

abbrev pub IsSafe : ℕ → Agent → Type 0
IsSafe max s = Locked s.step_lock s.loop × Tripped max s.failure_streak s.loop

trigger-IsSafe : (max : ℕ) (b : Bool) (s : Agent) → IsSafe max s → IsSafe max (trigger b s)
trigger-IsSafe max true s h = h
trigger-IsSafe max false s h = h

trigger_cycle-IsSafe : (max : ℕ) (s : Agent) → IsSafe max s → IsSafe max (trigger_cycle s)
unfolding trigger_cycle
trigger_cycle-IsSafe max s h = elim (Bool-cases (is_free s.step_lock)) [
  | inl e ↦ rw e (trigger-IsSafe max s.is_paused s h)
  | inr e ↦ rw e h
]

Tripped-move :
    (max streak : ℕ) (l l' : Loop) → l ≢ ended → Tripped max streak l → Tripped max streak l'
Tripped-move max streak l l' n (inl h) = inl h
Tripped-move max streak l l' n (inr h) = absurd (n h)

-- Where the loop is elsewhere than in a step, its lock stays whose it is.
Locked-move : (k : Lock) (l l' : Loop) → l ≢ in_step → l' ≢ in_step → Locked k l → Locked k l'
Locked-move by_loop l l' n n' h = absurd (n h)
Locked-move by_task l l' n n' h = n'
Locked-move free l l' n n' h = n'

Locked-free : (k : Lock) (l : Loop) → k ≡ free → Locked k l → l ≢ in_step
Locked-free by_loop l e h = λ p. cc
Locked-free by_task l e h = h
Locked-free free l e h = h

Locked-task : (k : Lock) (l : Loop) → k ≡ by_task → Locked k l → l ≢ in_step
Locked-task by_loop l e h = λ p. cc
Locked-task by_task l e h = h
Locked-task free l e h = h

pass-IsSafe : (max : ℕ) (s : Agent) → s.loop ≡ at_top → IsSafe max s → IsSafe max (pass s)
unfolding pass
pass-IsSafe max s e (lock, streak) = elim (Bool-cases s.is_running) [
  | inl on ↦ rw on (
    Locked-move s.step_lock s.loop at_lock (λ p. cc) (λ p. cc) lock,
    Tripped-move max s.failure_streak s.loop at_lock (λ p. cc) streak,
  )
  | inr off ↦ rw off (Locked-move s.step_lock s.loop ended (λ p. cc) (λ p. cc) lock, inr refl)
]

wake-IsSafe :
    (max : ℕ) (b : Bool) (s : Agent) → s.loop ≡ in_wait → IsSafe max s → IsSafe max (wake b s)
wake-IsSafe max true s e (lock, streak) = (
  Locked-move s.step_lock s.loop at_top (λ p. cc) (λ p. cc) lock,
  Tripped-move max s.failure_streak s.loop at_top (λ p. cc) streak,
)
wake-IsSafe max false s e (lock, streak) = (
  Locked-move s.step_lock s.loop at_top (λ p. cc) (λ p. cc) lock,
  Tripped-move max s.failure_streak s.loop at_top (λ p. cc) streak,
)

step_fails-IsSafe : (max : ℕ) (s : Agent) → IsSafe max (step_fails max s)
unfolding step_fails pause
step_fails-IsSafe max s = elim (Bool-cases (leb max (suc s.failure_streak))) [
  | inl e ↦ rw e (λ p. cc, inr refl)
  | inr e ↦ rw e (λ p. cc, inl (ground arith))
]

Step-IsSafe : (max : ℕ) (s t : Agent) → 0 < max → Step max s t → IsSafe max s → IsSafe max t
unfolding pause resume stop start enter step_succeeds task_starts task_ends
Step-IsSafe max s t positive (pausing _) h = h
Step-IsSafe max s t positive (resuming _) h = h
Step-IsSafe max s t positive (stopping _) h = h
Step-IsSafe max s t positive (triggering _) h = trigger_cycle-IsSafe max s h
Step-IsSafe max s t positive (starting _ e) (lock, streak) = (
  Locked-move s.step_lock s.loop at_top (λ p. cc) (λ p. cc) lock,
  Tripped-move max s.failure_streak s.loop at_top (λ p. cc) streak,
)
Step-IsSafe max s t positive (passing _ e k) h = pass-IsSafe max s e h
Step-IsSafe max s t positive (entering _ e k) (lock, streak) =
    (refl, Tripped-move max s.failure_streak s.loop in_step (λ p. cc) streak)
Step-IsSafe max s t positive (leaving _ e off) (lock, streak) =
    (Locked-move s.step_lock s.loop ended (λ p. cc) (λ p. cc) lock, inr refl)
Step-IsSafe max s t positive (succeeding _ e) h = (λ p. cc, inl positive)
Step-IsSafe max s t positive (failing _ e) h = step_fails-IsSafe max s
Step-IsSafe max s t positive (waking _ e) h = wake-IsSafe max s.trigger_event s e h
Step-IsSafe max s t positive (timing_out _ e) h = wake-IsSafe max false s e h
Step-IsSafe max s t positive (task_starting _ tasks e k) (lock, streak) =
    (Locked-free s.step_lock s.loop k lock, streak)
Step-IsSafe max s t positive (task_ending _ k) (lock, streak) =
    (Locked-task s.step_lock s.loop k lock, streak)

Steps-IsSafe : (max : ℕ) (s t : Agent) → 0 < max → Steps max s t → IsSafe max s → IsSafe max t
Steps-IsSafe max s t positive (done _) h = h
Steps-IsSafe max s t positive (next _ u _ step steps) h =
    Steps-IsSafe max u t positive steps (Step-IsSafe max s u positive step h)

-- In every state that the agent reaches, with a positive limit of failures: the step lock is the
-- loop's exactly while the loop is in a step, so that a manual step never runs beside one of the
-- loop; and the consecutive failures are below the limit, or the loop has ended.
pub initial-IsSafe : (max : ℕ) (s : Agent) → 0 < max → Steps max initial s → IsSafe max s
initial-IsSafe max s positive steps =
    Steps-IsSafe max initial s positive steps (λ p. cc, inl positive)

trigger-loop : (b : Bool) (s : Agent) → (trigger b s).loop ≡ s.loop
trigger-loop true s = refl
trigger-loop false s = refl

trigger_cycle-loop : (s : Agent) → (trigger_cycle s).loop ≡ s.loop
unfolding trigger_cycle
trigger_cycle-loop s = elim (Bool-cases (is_free s.step_lock)) [
  | inl e ↦ rw e (trigger-loop s.is_paused s)
  | inr e ↦ rw e refl
]
