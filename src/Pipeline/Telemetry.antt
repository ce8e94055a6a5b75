-- ===== src/Pipeline/Telemetry.antt =====
-- agent/cegis_tracker.py: the counters and the bounded history of `CegisTelemetryTracker`. What is
-- published and the texts of an event are left out.
use continuous_agent.Prelude.{
  ℕ, zero, suc, ◌+◌, ◌-◌, ◌≤◌, ◌≡◌, refl, List, [], ◌∷◌, length, take, length-take, arith,
}

pub data Status : Type 0 where
  verified violated other : Status

-- One event of the history.
pub record Logged : Type 0 where
  pub id : ℕ
  pub status : Status

pub record Tracker : Type 0 where
  pub max_history : ℕ
  pub history : List Logged
  pub total_checks : ℕ
  pub total_verified : ℕ
  pub total_violations : ℕ
  pub active_probes_count : ℕ

-- `appendleft` of a deque with `maxlen`.
abbrev pub appendleft : ℕ → Logged → List Logged → List Logged
appendleft maxlen e history = take maxlen (e ∷ history)

abbrev pub one_if_verified : Status → ℕ
one_if_verified verified = 1
one_if_verified violated = 0
one_if_verified other = 0

abbrev pub one_if_violated : Status → ℕ
one_if_violated verified = 0
one_if_violated violated = 1
one_if_violated other = 0

unfoldable pub record_event : Status → ℕ → Tracker → Tracker
record_event status total_probes t = record {
  max_history = t.max_history;
  history =
      appendleft t.max_history (record { id = t.total_checks + 1; status = status }) t.history;
  total_checks = t.total_checks + 1;
  total_verified = t.total_verified + one_if_verified status;
  total_violations = t.total_violations + one_if_violated status;
  active_probes_count = total_probes;
}

unfoldable pub record_counterexample : Tracker → Tracker
record_counterexample t = record {
  max_history = t.max_history;
  history =
      appendleft t.max_history (record { id = t.total_checks + 1; status = violated }) t.history;
  total_checks = t.total_checks + 1;
  total_verified = t.total_verified;
  total_violations = t.total_violations + 1;
  active_probes_count = t.active_probes_count;
}

-- The ids of the history count down from this number.
abbrev pub CountsDown : ℕ → List Logged → Type 0
CountsDown n [] = Unit
CountsDown n (e ∷ es) = (e.id ≡ n) × CountsDown (n - 1) es

abbrev pub IsSound : Tracker → Type 0
IsSound t =
    CountsDown t.total_checks t.history
    × (length t.history ≤ t.max_history)
    × (t.total_verified + t.total_violations ≤ t.total_checks)

-- A call of either method.
pub data Call : Type 0 where
  event : (status : Status) (total_probes : ℕ) → Call
  counterexample : Call

abbrev pub call : Call → Tracker → Tracker
call (event status total_probes) t = record_event status total_probes t
call counterexample t = record_counterexample t

abbrev pub calls : List Call → Tracker → Tracker
calls [] t = t
calls (c ∷ cs) t = calls cs (call c t)

CountsDown-take : (k n : ℕ) (es : List Logged) → CountsDown n es → CountsDown n (take k es)
CountsDown-take zero n es h = tt
CountsDown-take (suc k) n [] h = tt
CountsDown-take (suc k) n (e ∷ es) (first, rest) = (first, CountsDown-take k (n - 1) es rest)

CountsDown-next :
    (k n : ℕ) (status : Status) (es : List Logged)
    → CountsDown n es
    → CountsDown (n + 1) (take k (record { id = n + 1; status = status } ∷ es))
CountsDown-next k n status es h =
    let back : n + 1 - 1 ≡ n = omega arith in
    CountsDown-take k (n + 1) (record { id = n + 1; status = status } ∷ es) (refl, rw back h)

one_of : (status : Status) → one_if_verified status + one_if_violated status ≤ 1
one_of verified = omega arith
one_of violated = omega arith
one_of other = omega arith

call-IsSound : (c : Call) (t : Tracker) → IsSound t → IsSound (call c t)
unfolding record_event record_counterexample
call-IsSound (event status probes) t (down, short, few) = (
  CountsDown-next t.max_history t.total_checks status t.history down,
  omega (
    arith,
    length-take t.max_history (record { id = t.total_checks + 1; status = status } ∷ t.history),
  ),
  omega (arith, one_of status),
)
call-IsSound counterexample t (down, short, few) = (
  CountsDown-next t.max_history t.total_checks violated t.history down,
  omega (
    arith,
    length-take t.max_history (record { id = t.total_checks + 1; status = violated } ∷ t.history),
  ),
  omega arith,
)

-- Over any calls of `record_event` and `record_counterexample`, from a state where it holds: the
-- ids of the history count down from the number of checks, the history is no longer than its bound,
-- and the verified and the violated checks together are at most all checks.
pub calls-IsSound : (cs : List Call) (t : Tracker) → IsSound t → IsSound (calls cs t)
calls-IsSound [] t h = h
calls-IsSound (c ∷ cs) t h = calls-IsSound cs (call c t) (call-IsSound c t h)
