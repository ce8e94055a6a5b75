-- ===== src/RateLimit.antt =====
-- agent/rate_limiter.py and agent/cooldown_store.py: token buckets, one per domain, and the table
-- `domain_cooldowns` that keeps a pause over a restart. Times are ticks of the monotonic clock, and
-- epochs the same ticks of the wall clock. Tokens are counted in units, `one` to a token, so that a
-- rate is a whole number of units per tick; no rounding is modelled. A method that holds the lock
-- of its bucket is one step.
pub mod Domain
pub mod Window
pub mod Restart
mod Examples
use continuous_agent.Prelude.{
  ℕ, ◌+◌, ◌-◌, ◌*◌, min, max, String, Bool, true, false, Option, none, some, List, [], ◌∷◌, ltb,
  leb, ◌==◌, if◌then◌else◌,
}

-- `units / per` ticks.
pub record Wait : Type 0 where
  pub units : ℕ
  pub per : ℕ

pub record Bucket : Type 0 where
  pub rate : ℕ
  pub capacity : ℕ
  pub tokens : ℕ
  pub paused_until : ℕ
  pub last_refill : ℕ

-- A row of `domain_cooldowns`.
pub record Row : Type 0 where
  pub paused_until : ℕ
  pub tokens : ℕ
  pub last_refill : ℕ
  pub rate : ℕ
  pub capacity : ℕ

-- `AsyncTokenBucket.__init__`, where `time.monotonic()` is `now` and `time.time()` is `epoch`.
-- `none` is a `last_refill_epoch` that is falsy.
abbrev pub resume : ℕ → ℕ → ℕ → ℕ → Option ℕ → Option ℕ → Bucket
resume now epoch rate capacity tokens none = record {
  rate = rate;
  capacity = capacity;
  tokens = elim tokens [ none ↦ capacity | some t ↦ t ];
  paused_until = 0;
  last_refill = now;
}
resume now epoch rate capacity tokens (some last) = record {
  rate = rate;
  capacity = capacity;
  tokens = min capacity (elim tokens [ none ↦ 0 | some t ↦ t ] + (epoch - last) * rate);
  paused_until = 0;
  last_refill = now;
}

abbrev truthy : Option ℕ → Option ℕ
truthy none = none
truthy (some n) = if n == 0 then none else some n

unfoldable pub new_bucket : ℕ → ℕ → ℕ → ℕ → Option ℕ → ℕ → Option ℕ → Bucket
new_bucket now epoch rate capacity tokens paused_until_epoch last_refill_epoch =
    if ltb epoch paused_until_epoch
    then record {
      rate = rate;
      capacity = capacity;
      tokens = 0;
      paused_until = now + (paused_until_epoch - epoch);
      last_refill = now + (paused_until_epoch - epoch);
    }
    else resume now epoch rate capacity tokens (truthy last_refill_epoch)

-- `pause`: the bucket, and the epoch that is persisted (`return` gives it twice, with 0 tokens).
unfoldable pub pause : ℕ → ℕ → ℕ → Bucket → Bucket × ℕ
pause now epoch seconds b =
    let until = max b.paused_until (now + seconds) in
    (
      record {
        rate = b.rate;
        capacity = b.capacity;
        tokens = 0;
        paused_until = until;
        last_refill = until;
      },
      epoch + seconds,
    )

module _ (one : ℕ) where
  -- Of a refilled bucket: take one token, or say how long to wait.
  abbrev pub take_token : Bucket → Bucket × Option Wait
  take_token b =
      if leb one b.tokens
      then (
        record {
          rate = b.rate;
          capacity = b.capacity;
          tokens = b.tokens - one;
          paused_until = b.paused_until;
          last_refill = b.last_refill;
        },
        none,
      )
      else (b, some (record { units = one - b.tokens; per = b.rate }))

  -- `bucket.last_refill = now` and the refill; no reading is before the last refill, see `IsTimely` in RateLimit/Window.
  abbrev pub refill : ℕ → Bucket → Bucket
  refill now b = record {
    rate = b.rate;
    capacity = b.capacity;
    tokens = min b.capacity (b.tokens + (now - b.last_refill) * b.rate);
    paused_until = b.paused_until;
    last_refill = now;
  }

  -- The body of the loop of `AsyncTokenBucket.acquire`, and of `check_and_consume` under the lock:
  -- `none` where a token was taken, else how long to wait.
  unfoldable pub attempt : ℕ → Bucket → Bucket × Option Wait
  attempt now b =
      if ltb now b.paused_until
      then (b, some (record { units = b.paused_until - now; per = 1 }))
      else take_token (refill now b)

  -- `AsyncTokenBucket.acquire` over the readings of the clock: the reading at which a token was
  -- taken, if one was, and how long it slept before each of the later readings.
  unfoldable pub acquire : List ℕ → Bucket → Bucket × Option ℕ
  unfolding attempt
  acquire [] b = (b, none)
  acquire (now ∷ later) b =
      let (b', refused) = attempt now b in
      let rest = acquire later b' in elim refused [ none ↦ (b', some now) | some wait ↦ rest ]
