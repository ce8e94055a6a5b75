-- ===== src/Control/Retry.antt =====
-- agent/circuit_breaker.py: `APICircuitBreaker.call_with_retry`. What the API answers at each
-- attempt is a parameter, as is the test on the text of an exception (`429` or `rate_limit`).
pub mod Bounds
use continuous_agent.Prelude.{
  ℕ, zero, suc, ◌+◌, ◌*◌, Bool, true, false, Option, none, some, List, [], ◌∷◌, leb, ltb, ◌&&◌,
  if◌then◌else◌,
}

pub data Answer (R X : Type 0) : Type 0 where
  result : R → Answer R X
  exception : X → Answer R X

pub record Breaker : Type 0 where
  pub max_retries : ℕ
  pub base_delay : ℕ
  pub hourly_token_cap : ℕ
  pub tokens_used_this_hour : ℕ

-- How a call ends: the budget is exceeded, a result, an exception passed on, or `None` when the
-- loop has no attempt.
pub data Outcome (R X : Type 0) : Type 0 where
  over_budget : Outcome R X
  returned : R → Outcome R X
  raised : X → Outcome R X
  returned_none : Outcome R X

-- The outcome, the calls made, and the delays slept in their order.
pub record Trace (R X : Type 0) : Type 0 where
  pub outcome : Outcome R X
  pub calls : ℕ
  pub delays : List ℕ

abbrev pub end_with : {R X : Type 0} → Outcome R X → Trace R X
end_with outcome = record { outcome = outcome; calls = 1; delays = [] }

abbrev pub after_sleep : {R X : Type 0} → ℕ → Trace R X → Trace R X
after_sleep delay t = record { outcome = t.outcome; calls = suc t.calls; delays = delay ∷ t.delays }

-- `tokens_used_this_hour += max_tokens + 300`
abbrev pub charge : {R X : Type 0} → ℕ → Outcome R X → Breaker → Breaker
charge max_tokens (returned r) b = record {
  max_retries = b.max_retries;
  base_delay = b.base_delay;
  hourly_token_cap = b.hourly_token_cap;
  tokens_used_this_hour = b.tokens_used_this_hour + (max_tokens + 300);
}
charge max_tokens over_budget b = b
charge max_tokens (raised e) b = b
charge max_tokens returned_none b = b

module _ {R X : Type 0} (api_func : ℕ → Answer R X) (is_rate_limit : X → Bool) where
  -- One attempt: its answer, and what the rest of the loop would give.
  abbrev pub handle : ℕ → ℕ → ℕ → Answer R X → Trace R X → Trace R X
  handle max_retries attempt delay (result r) rest = end_with (returned r)
  handle max_retries attempt delay (exception e) rest =
      if is_rate_limit e && ltb attempt max_retries
      then after_sleep delay rest
      else end_with (raised e)

  -- `for attempt in range(...)`, with the number of attempts that are left.
  unfoldable pub attempts : ℕ → ℕ → ℕ → ℕ → Trace R X
  attempts max_retries zero attempt delay = record {
    outcome = returned_none;
    calls = 0;
    delays = [];
  }
  attempts max_retries (suc left) attempt delay =
      handle max_retries attempt delay (api_func attempt)
        (attempts max_retries left (suc attempt) (delay * 2))

  unfoldable pub call_with_retry : ℕ → Breaker → Trace R X × Breaker
  unfolding attempts
  call_with_retry max_tokens b =
      if leb b.hourly_token_cap b.tokens_used_this_hour
      then (record { outcome = over_budget; calls = 0; delays = [] }, b)
      else let t = attempts b.max_retries b.max_retries 1 b.base_delay in
        (t, charge max_tokens t.outcome b)
