-- ===== src/Control/Retry/Bounds.antt =====
-- agent/circuit_breaker.py: how often a call is tried, how long it waits, and on what answer of the
-- API it ends.
use continuous_agent.Prelude.{ℕ, suc, ◌*◌, ◌≤◌, ◌≡◌, Bool, List, [], ◌∷◌, length, ◌⊎◌, true, false}
use continuous_agent.Control.Retry.{
  Answer, result, exception, Outcome, over_budget, returned, raised, returned_none, Trace,
}

-- Each delay is twice the one before, from this one on.
abbrev pub Doubles : ℕ → List ℕ → Type 0
Doubles delay [] = Unit
Doubles delay (d ∷ ds) = (d ≡ delay) × Doubles (delay * 2) ds

module _ {R X : Type 0} (api_func : ℕ → Answer R X) (is_rate_limit : X → Bool) where
  -- The API's answer to an attempt, where the call ends with it.
  abbrev pub EndsOn : ℕ → ℕ → Outcome R X → Type 0
  EndsOn max_retries attempt (returned r) = api_func attempt ≡ result r
  EndsOn max_retries attempt (raised x) =
      (api_func attempt ≡ exception x) × ((is_rate_limit x ≡ false) ⊎ (max_retries ≤ attempt))
  EndsOn max_retries attempt over_budget = ⊥
  EndsOn max_retries attempt returned_none = ⊥

  -- The API's answers from an attempt on: a rate limit before each of the delays, and after the
  -- last of them the answer that the call ends with.
  abbrev pub Answers : ℕ → ℕ → Outcome R X → List ℕ → Type 0
  Answers max_retries attempt outcome [] = EndsOn max_retries attempt outcome
  Answers max_retries attempt outcome (d ∷ ds) =
      ((x : X) × ((api_func attempt ≡ exception x) × (is_rate_limit x ≡ true)))
      × Answers max_retries (suc attempt) outcome ds

  -- What holds of the loop at an attempt with some left: at least one and at most all of them are
  -- made, with a doubled delay between each two, and the outcome is by the API's answers.
  abbrev pub IsBounded : ℕ → ℕ → ℕ → ℕ → Trace R X → Type 0
  IsBounded max_retries left attempt delay t =
      (t.calls ≤ left)
      × (t.calls ≡ suc (length t.delays))
      × Doubles delay t.delays
      × Answers max_retries attempt t.outcome t.delays
