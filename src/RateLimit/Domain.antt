-- ===== src/RateLimit/Domain.antt =====
-- agent/rate_limiter.py: `DomainRateLimiter`, and the store that it reads and writes.
use continuous_agent.Prelude.{
  ℕ, ◌-◌, ◌*◌, max, String, str_eq, Option, none, some, List, [], ltb, ◌==◌, if◌then◌else◌,
}
use continuous_agent.Prelude.Int.{ℤ, pos_part}
use continuous_agent.Prelude.Maps.{find, store}
use continuous_agent.RateLimit.{Bucket, Row, Wait, new_bucket, pause, attempt, acquire}

-- A limiter with its buckets, and the table that outlives it. `default_tpm` is in tokens.
pub record Limiter : Type 0 where
  pub default_rate : ℕ
  pub default_capacity : ℕ
  pub default_tpm : Option ℕ
  pub domain_rules : List (String × (ℕ × ℕ))
  pub buckets : List (String × Bucket)
  pub cooldowns : List (String × Row)

-- `SqliteCooldownStore.get_cooldown` and `save_cooldown`.
abbrev pub get_cooldown : String → Limiter → Option Row
get_cooldown domain l = find domain l.cooldowns

abbrev pub save_cooldown : String → Row → Limiter → Limiter
save_cooldown domain row l = record {
  default_rate = l.default_rate;
  default_capacity = l.default_capacity;
  default_tpm = l.default_tpm;
  domain_rules = l.domain_rules;
  buckets = l.buckets;
  cooldowns = store domain row l.cooldowns;
}

-- `self.buckets[domain] = bucket`
abbrev pub register : String → Bucket → Limiter → Limiter
register domain bucket l = record {
  default_rate = l.default_rate;
  default_capacity = l.default_capacity;
  default_tpm = l.default_tpm;
  domain_rules = l.domain_rules;
  buckets = store domain bucket l.buckets;
  cooldowns = l.cooldowns;
}

-- A new process over the same database.
abbrev pub restart : Limiter → Limiter
restart l = record {
  default_rate = l.default_rate;
  default_capacity = l.default_capacity;
  default_tpm = l.default_tpm;
  domain_rules = l.domain_rules;
  buckets = [];
  cooldowns = l.cooldowns;
}

abbrev pub rule : Option (ℕ × ℕ) → Limiter → ℕ × ℕ
rule none l = (l.default_rate, l.default_capacity)
rule (some r) l = r

-- The bucket of a domain that has none in memory.
abbrev pub load : ℕ → ℕ → Option Row → ℕ × ℕ → Bucket
load now epoch (some row) (default_r, default_c) =
    new_bucket now epoch row.rate row.capacity (some row.tokens) row.paused_until
      (some row.last_refill)
load now epoch none (default_r, default_c) = new_bucket now epoch default_r default_c none 0 none

abbrev pub found_or_load : ℕ → ℕ → String → Limiter → Option Bucket → Bucket × Limiter
found_or_load now epoch domain l (some bucket) = (bucket, l)
found_or_load now epoch domain l none =
    let bucket = load now epoch (get_cooldown domain l) (rule (find domain l.domain_rules) l) in
    (bucket, register domain bucket l)

unfoldable pub get_bucket : ℕ → ℕ → String → Limiter → Bucket × Limiter
get_bucket now epoch domain l = found_or_load now epoch domain l (find domain l.buckets)

-- `self.default_tpm or 10000.0`
abbrev pub tpm_limit : Option ℕ → ℕ
tpm_limit none = 10000
tpm_limit (some tpm) = if tpm == 0 then 10000 else tpm

-- `max(1.0, (tokens - tpm_limit) / (tpm_limit / 60.0))`, with `second` ticks to a second.
abbrev pub over_limit_wait : ℕ → ℕ → ℕ → Wait
over_limit_wait second tokens limit =
    if ltb ((tokens - limit) * 60 * second) (second * limit)
    then record { units = second; per = 1 }
    else record { units = (tokens - limit) * 60 * second; per = limit }

module _ (one second : ℕ) where
  -- `none`: `True, 0.0`.
  unfoldable pub check_and_consume : ℕ → ℕ → String → ℕ → Limiter → Limiter × Option Wait
  unfolding get_bucket attempt
  check_and_consume now epoch domain tokens l =
      if ltb (tpm_limit l.default_tpm) tokens
      then (l, some (over_limit_wait second tokens (tpm_limit l.default_tpm)))
      else let (bucket, l') = get_bucket now epoch domain l in
        let (bucket', refused) = attempt one now bucket in (register domain bucket' l', refused)

  -- `DomainRateLimiter.acquire`, over the readings of the clock after the bucket was fetched.
  unfoldable pub acquire_domain : ℕ → ℕ → List ℕ → String → Limiter → Limiter × Option ℕ
  unfolding get_bucket acquire
  acquire_domain now epoch readings domain l =
      let (bucket, l') = get_bucket now epoch domain l in
      let (bucket', taken) = acquire one readings bucket in (register domain bucket' l', taken)

  module _ (strip : String → String) (to_float seconds_until : String → Option ℤ) where
    -- `max(1.0, x)`
    abbrev pub at_least_second : ℤ → ℕ
    at_least_second x = max second (pos_part x)

    abbrev pub parsed : Option ℤ → Option ℤ → ℕ → ℕ
    parsed (some x) date default_backoff = at_least_second x
    parsed none (some delta) default_backoff = at_least_second delta
    parsed none none default_backoff = default_backoff

    -- `float(val)`, and `parsedate_to_datetime(val)` less the current time, are parameters, in ticks.
    abbrev pub parse_retry_after : Option String → ℕ → ℕ
    parse_retry_after none default_backoff = default_backoff
    parse_retry_after (some header) default_backoff =
        if str_eq header ""
        then default_backoff
        else parsed (to_float (strip header)) (seconds_until (strip header)) default_backoff

    unfoldable pub pause_domain : ℕ → ℕ → String → Option String → Limiter → Limiter
    unfolding get_bucket pause
    pause_domain now epoch domain header l =
        let backoff = parse_retry_after header (30 * second) in
        let (bucket, l') = get_bucket now epoch domain l in
        let (bucket', paused_epoch) = pause now epoch backoff bucket in
        save_cooldown domain
          (record {
            paused_until = paused_epoch;
            tokens = bucket'.tokens;
            last_refill = paused_epoch;
            rate = bucket'.rate;
            capacity = bucket'.capacity;
          })
          (register domain bucket' l')
