-- ===== src/Control/Examples.antt =====
-- Tests of the retries and of the heartbeat loop.
use continuous_agent.Prelude.{ℕ, ◌≡◌, refl, Bool, true, [], ◌∷◌, ltb, arith, if◌then◌else◌}
use continuous_agent.Control.Retry.{Answer, result, exception, Breaker, call_with_retry}
use continuous_agent.Control.Heartbeat.{
  Agent, Steps, done, next, starting, passing, entering, failing, start, pass, enter, step_fails,
  initial,
}
use continuous_agent.Control.Heartbeat.Safety.{IsSafe, initial-IsSafe}

-- Two rate limits, then an answer.
abbrev busy : ℕ → Answer ℕ Bool
busy attempt = if ltb attempt 3 then exception true else result 7

abbrev is_limit : Bool → Bool
is_limit b = b

abbrev breaker : Breaker
breaker = record {
  max_retries = 4;
  base_delay = 2;
  hourly_token_cap = 1000;
  tokens_used_this_hour = 100;
}

busy-delays : (call_with_retry busy is_limit 400 breaker).0.delays ≡ 2 ∷ 4 ∷ []
unfolding call_with_retry
busy-delays = refl

abbrev started : Agent
started = start initial

abbrev tripped : Agent
tripped = step_fails 1 (enter (pass started))

to_tripped : Steps 1 initial tripped
unfolding start pass enter
to_tripped = next _ _ _ (starting initial refl) (
    next _ _ _ (passing started refl refl) (
      next _ _ _ (entering (pass started) refl refl)
        (next _ _ _ (failing (enter (pass started)) refl) (done tripped))))

initial-IsSafe_example : IsSafe 1 tripped
initial-IsSafe_example = initial-IsSafe 1 tripped (omega arith) to_tripped
