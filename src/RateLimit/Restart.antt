-- ===== src/RateLimit/Restart.antt =====
-- agent/rate_limiter.py and agent/cooldown_store.py: a pause outlives the process.
use continuous_agent.Prelude.{
  ℕ, ◌+◌, ◌-◌, ◌*◌, ◌<◌, ◌≡◌, refl, String, true, false, Option, none, some, ltb, lt→ltb, arith,
}
use continuous_agent.Prelude.Int.{ℤ}
use continuous_agent.Prelude.Maps.{find, find-store_self}
use continuous_agent.RateLimit.{Bucket, Row, new_bucket, pause, attempt}
use continuous_agent.RateLimit.Domain.{
  Limiter, get_cooldown, restart, rule, load, found_or_load, get_bucket, tpm_limit,
  check_and_consume, parse_retry_after, pause_domain,
}

module _ (one second : ℕ) (strip : String → String)
    (to_float seconds_until : String → Option ℤ) where
  -- What `pause_domain` has written for the domain.
  pause_domain-row :
      (now epoch : ℕ) (domain : String) (header : Option String) (l : Limiter)
      → (rate : ℕ) × (capacity : ℕ) × (get_cooldown domain
            (pause_domain one second strip to_float seconds_until now epoch domain header l)
          ≡ some (record {
            paused_until =
                epoch
                + parse_retry_after one second strip to_float seconds_until header (30 * second);
            tokens = 0;
            last_refill =
                epoch
                + parse_retry_after one second strip to_float seconds_until header (30 * second);
            rate = rate;
            capacity = capacity;
          }))
  unfolding pause_domain pause
  pause_domain-row now epoch domain header l = (_, _, find-store_self domain _ _)

get_bucket-default_tpm :
    (now epoch : ℕ) (domain : String) (l : Limiter) (o : Option Bucket)
    → (found_or_load now epoch domain l o).1.default_tpm ≡ l.default_tpm
get_bucket-default_tpm now epoch domain l none = refl
get_bucket-default_tpm now epoch domain l (some bucket) = refl

pause_domain-default_tpm :
    (one second : ℕ) (strip : String → String) (to_float seconds_until : String → Option ℤ)
    (now epoch : ℕ) (domain : String) (header : Option String) (l : Limiter)
    → (pause_domain one second strip to_float seconds_until now epoch domain header l).default_tpm
      ≡ l.default_tpm
unfolding pause_domain get_bucket
pause_domain-default_tpm one second strip to_float seconds_until now epoch domain header l =
    get_bucket-default_tpm now epoch domain l (find domain l.buckets)

unfoldable paused_bucket : ℕ → ℕ → ℕ → ℕ → Bucket
paused_bucket now remaining rate capacity = record {
  rate = rate;
  capacity = capacity;
  tokens = 0;
  paused_until = now + remaining;
  last_refill = now + remaining;
}

load-paused :
    (now epoch : ℕ) (row : Row) (defaults : ℕ × ℕ)
    → epoch < row.paused_until
    → load now epoch (some row) defaults
      ≡ paused_bucket now (row.paused_until - epoch) row.rate row.capacity
unfolding new_bucket paused_bucket
load-paused now epoch row defaults early = rw (lt→ltb epoch row.paused_until early) refl

attempt-paused :
    (one now remaining rate capacity : ℕ)
    → 0 < remaining
    → (attempt one now (paused_bucket now remaining rate capacity)).1
      ≡ some (record { units = remaining; per = 1 })
unfolding attempt paused_bucket
attempt-paused one now remaining rate capacity some_left =
    let early : ltb now (now + remaining) ≡ true = lt→ltb _ _ (omega arith) in
    let exact : now + remaining - now ≡ remaining = omega arith in rw (early, exact) refl

-- A domain that is loaded from a row whose pause is not over.
load-refused :
    (one second now epoch tokens : ℕ) (domain : String) (l : Limiter) (row : Row)
    → find domain l.buckets ≡ none
    → get_cooldown domain l ≡ some row
    → epoch < row.paused_until
    → ltb (tpm_limit l.default_tpm) tokens ≡ false
    → (check_and_consume one second now epoch domain tokens l).1
      ≡ some (record { units = row.paused_until - epoch; per = 1 })
unfolding check_and_consume get_bucket
load-refused one second now epoch tokens domain l row absent saved early small =
    rw (small, absent, saved, load-paused now epoch row (rule (find domain l.domain_rules) l) early)
      (attempt-paused one now (row.paused_until - epoch) row.rate row.capacity (omega arith))

module _ (one second : ℕ) (strip : String → String)
    (to_float seconds_until : String → Option ℤ) where
  -- A domain is paused, then the process starts anew on the same database. Until the pause is over
  -- by the wall clock, whatever the new monotonic clock reads, a request for no more than the token
  -- limit is refused, and told to wait exactly for what is left of the pause.
  pub pause_domain-restart :
      (now epoch now' epoch' tokens : ℕ) (domain : String) (header : Option String) (l : Limiter)
      → epoch'
        < epoch + parse_retry_after one second strip to_float seconds_until header (30 * second)
      → ltb (tpm_limit l.default_tpm) tokens ≡ false
      → (check_and_consume one second now' epoch' domain tokens (
          restart
            (pause_domain one second strip to_float seconds_until now epoch domain header l))).1
        ≡ some (record {
          units =
              epoch
              + parse_retry_after one second strip to_float seconds_until header (30 * second)
              - epoch';
          per = 1;
        })
  pause_domain-restart now epoch now' epoch' tokens domain header l early small =
      let l' = pause_domain one second strip to_float seconds_until now epoch domain header l in
      let (rate, capacity, saved) =
        pause_domain-row one second strip to_float seconds_until now epoch domain header l in
      load-refused one second now' epoch' tokens domain (restart l') _ refl saved early (
        rw
          (pause_domain-default_tpm one second strip to_float seconds_until now epoch domain header
            l)
          small)
