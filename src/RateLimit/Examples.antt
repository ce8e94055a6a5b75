-- ===== src/RateLimit/Examples.antt =====
-- Tests of the rate limiter: 10 ticks to a second, 10 units to a token, 1 unit per tick.
use continuous_agent.Prelude.{
  ◌+◌, ◌-◌, ◌*◌, ◌≤◌, ◌≡◌, refl, String, Option, none, some, List, [], ◌∷◌, arith,
}
use continuous_agent.Prelude.Int.{ℤ, pos}
use continuous_agent.RateLimit.{Bucket, attempt, acquire, pause}
use continuous_agent.RateLimit.Domain.{
  Limiter, restart, check_and_consume, pause_domain, parse_retry_after,
}
use continuous_agent.RateLimit.Window.{
  Event, attempted, paused, granted, granted-bound, attempt-wait,
}
use continuous_agent.RateLimit.Restart.{pause_domain-restart}

abbrev two_tokens : Bucket
two_tokens = record { rate = 1; capacity = 20; tokens = 20; paused_until = 0; last_refill = 5 }

abbrev rush : List Event
rush =
    attempted 5
    ∷ attempted 6
    ∷ attempted 7
    ∷ paused 15 10
    ∷ attempted 20
    ∷ attempted 35
    ∷ attempted 40
    ∷ []

rush-granted : granted 10 rush two_tokens ≡ 3
unfolding attempt pause
rush-granted = refl

granted-bound_example : granted 10 rush two_tokens * 10 ≤ 20 + (40 - 5) * 1
granted-bound_example =
    granted-bound 10 5 40 rush two_tokens (ground arith) (omega arith) (omega arith)

abbrev drained : Bucket
drained = record { rate = 1; capacity = 20; tokens = 4; paused_until = 0; last_refill = 5 }

abbrev drained_at_6 : Bucket
drained_at_6 = record { rate = 1; capacity = 20; tokens = 5; paused_until = 0; last_refill = 6 }

drained-refused : attempt 10 6 drained ≡ (drained_at_6, some (record { units = 5; per = 1 }))
unfolding attempt
drained-refused = refl

acquired : (acquire 10 (6 ∷ 11 ∷ []) drained).1 ≡ some 11
unfolding acquire
acquired = refl

attempt-wait_example : (attempt 10 11 drained_at_6).1 ≡ none
attempt-wait_example =
    attempt-wait 10 6 11 drained drained_at_6 (record { units = 5; per = 1 }) (omega arith)
      (omega arith) drained-refused (omega arith) (omega arith)

abbrev strip : String → String
strip s = s

abbrev forty_ticks : String → Option ℤ
forty_ticks s = some (pos 40)

abbrev no_date : String → Option ℤ
no_date s = none

abbrev limiter : Limiter
limiter = record {
  default_rate = 1;
  default_capacity = 20;
  default_tpm = none;
  domain_rules = [];
  buckets = [];
  cooldowns = [];
}

pause_domain-restart_example :
    (check_and_consume 10 10 3 115 "api" 1
      (restart (pause_domain 10 10 strip forty_ticks no_date 7 100 "api" (some "4") limiter))).1
    ≡ some (record {
      units = 100 + parse_retry_after 10 10 strip forty_ticks no_date (some "4") (30 * 10) - 115;
      per = 1;
    })
pause_domain-restart_example =
    pause_domain-restart 10 10 strip forty_ticks no_date 7 100 3 115 1 "api" (some "4") limiter
      (omega arith) refl
