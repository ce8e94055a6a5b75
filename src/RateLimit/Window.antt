-- ===== src/RateLimit/Window.antt =====
-- agent/rate_limiter.py: how many tokens a bucket grants, and when a refused caller is served.
use continuous_agent.Prelude.{
  subst, sym, ℕ, ◌+◌, ◌-◌, ◌*◌, ◌≤◌, ◌≡◌, refl, max, Bool-cases, true, false, Option, none, some,
  List, [], ◌∷◌, ltb, leb, arith, inl, inr, leb→le,
}
use native.Mathlib.Nat.{mul-le-mul_right, add-mul}
use continuous_agent.RateLimit.{Bucket, Wait, pause, attempt, refill}

-- What happens to a bucket, with the reading of the clock: `attempt`, or `pause` of some ticks.
pub data Event : Type 0 where
  attempted : (now : ℕ) → Event
  paused : (now seconds : ℕ) → Event

abbrev pub time_of : Event → ℕ
time_of (attempted now) = now
time_of (paused now seconds) = now

-- The clock never goes back: every reading is at least the one before, the last at most `end`.
abbrev pub InOrder : ℕ → List Event → ℕ → Type 0
InOrder now [] end = now ≤ end
InOrder now (e ∷ es) end = (now ≤ time_of e) × InOrder (time_of e) es end

abbrev pub given : Option Wait → ℕ
given none = 1
given (some w) = 0

elapsed_split :
    (last t end rate : ℕ)
    → last ≤ t
    → t ≤ end
    → (end - last) * rate ≡ (t - last) * rate + (end - t) * rate
elapsed_split last t end rate due before =
    let parts : end - last ≡ t - last + (end - t) = omega arith in
    rw parts (add-mul (t - last) (end - t) rate)

le→leb : (a b : ℕ) → a ≤ b → leb a b ≡ true
le→leb a b h = ground arith

InOrder-end : (now : ℕ) (es : List Event) (end : ℕ) → InOrder now es end → now ≤ end
InOrder-end now [] end h = h
InOrder-end now (e ∷ es) end (later, h) = omega (arith, InOrder-end (time_of e) es end h)

module _ (one : ℕ) where
  abbrev pub after : Event → Bucket → Bucket
  after (attempted now) b = (attempt one now b).0
  after (paused now seconds) b = (pause now 0 seconds b).0

  abbrev pub granted_by : Event → Bucket → ℕ
  granted_by (attempted now) b = given (attempt one now b).1
  granted_by (paused now seconds) b = 0

  -- The tokens granted over a sequence of events.
  abbrev pub granted : List Event → Bucket → ℕ
  granted [] b = 0
  granted (e ∷ es) b = granted_by e b + granted es (after e b)

  -- The last refill is not later than the clock, unless the bucket is paused until then.
  abbrev pub IsTimely : ℕ → Bucket → Type 0
  IsTimely now b = b.last_refill ≤ max now b.paused_until

  -- What an event leaves of the tokens that may still be granted by `end`.
  budget : ℕ → Bucket → ℕ
  budget end b = b.tokens + (end - b.last_refill) * b.rate

  pub attempt_early :
      (now : ℕ) (b : Bucket)
      → ltb now b.paused_until ≡ true
      → attempt one now b ≡ (b, some (record { units = b.paused_until - now; per = 1 }))
  unfolding attempt
  attempt_early now b e = rw e refl

  pub attempt_short :
      (now : ℕ) (b : Bucket)
      → ltb now b.paused_until ≡ false
      → leb one (refill one now b).tokens ≡ false
      → attempt one now b ≡ (
        refill one now b,
        some (record { units = one - (refill one now b).tokens; per = b.rate }),
      )
  unfolding attempt
  attempt_short now b late short = rw (late, short) refl

  pub attempt_grants :
      (now : ℕ) (b : Bucket)
      → ltb now b.paused_until ≡ false
      → leb one (refill one now b).tokens ≡ true
      → attempt one now b ≡ (
        record {
          rate = b.rate;
          capacity = b.capacity;
          tokens = (refill one now b).tokens - one;
          paused_until = b.paused_until;
          last_refill = now;
        },
        none,
      )
  unfolding attempt
  attempt_grants now b late enough = rw (late, enough) refl

  attempt-step :
      (t end : ℕ) (b : Bucket)
      → t ≤ end
      → b.last_refill ≤ max t b.paused_until
      → IsTimely t (attempt one t b).0
        × (given (attempt one t b).1 * one + budget end (attempt one t b).0 ≤ budget end b)
  unfolding budget
  attempt-step t end b before timely = elim (Bool-cases (ltb t b.paused_until)) [
    | inl early ↦ rw (attempt_early t b early) (omega arith, omega arith)
    | inr late ↦
        let due : b.last_refill ≤ t = ground arith in
        let split = elapsed_split b.last_refill t end b.rate due before in
        elim (Bool-cases (leb one (refill one t b).tokens)) [
          | inl enough ↦ rw (attempt_grants t b late enough) (omega arith, omega (arith, leb→le))
          | inr short ↦ rw (attempt_short t b late short) (omega arith, omega arith)
        ]
  ]

  step_lem :
      (now end : ℕ) (e : Event) (b : Bucket)
      → now ≤ time_of e
      → time_of e ≤ end
      → IsTimely now b
      → IsTimely (time_of e) (after e b)
        × (granted_by e b * one + budget end (after e b) ≤ budget end b)
  unfolding pause budget
  step_lem now end (attempted t) b later before timely = attempt-step t end b before (omega arith)
  step_lem now end (paused t s) b later before timely =
      let until : end - max b.paused_until (t + s) ≤ end - b.last_refill = omega arith in
      (omega arith, omega (arith, mul-le-mul_right b.rate until))

  granted-budget :
      (now end : ℕ) (es : List Event) (b : Bucket)
      → InOrder now es end
      → IsTimely now b
      → granted es b * one ≤ budget end b
  granted-budget now end [] b order timely = omega arith
  granted-budget now end (e ∷ es) b (later, order) timely =
      let (timely', spent) =
        step_lem now end e b later (InOrder-end (time_of e) es end order) timely in
      omega (
        arith,
        granted-budget (time_of e) end es (after e b) order timely',
        add-mul (granted_by e b) (granted es (after e b)) one,
      )

  -- A pause leaves what comes in after its end.
  paused-budget :
      (t end seconds : ℕ) (b : Bucket)
      → budget end (after (paused t seconds) b) ≤ (end - max b.paused_until (t + seconds)) * b.rate
  unfolding budget pause
  paused-budget t end seconds b = omega arith

  -- An attempt leaves at most a full bucket, and what comes in after it.
  attempt-capped :
      (t end : ℕ) (b : Bucket)
      → ltb t b.paused_until ≡ false
      → given (attempt one t b).1 * one + budget end (attempt one t b).0
        ≤ b.capacity + (end - t) * b.rate
  unfolding budget
  attempt-capped t end b late = elim (Bool-cases (leb one (refill one t b).tokens)) [
    | inl enough ↦ rw (attempt_grants t b late enough) (omega (arith, leb→le))
    | inr short ↦ rw (attempt_short t b late short) (omega arith)
  ]

  -- In any window of time, wherever the last refill was. A bucket that holds at most its capacity,
  -- and was refilled no later than `start` unless it is paused until then: over any events from
  -- `start` to `end`, attempts and pauses in any order, the tokens granted are at most the capacity
  -- and what the rate yields from `start` to `end`.
  pub granted-bound :
      (start end : ℕ) (es : List Event) (b : Bucket)
      → InOrder start es end
      → IsTimely start b
      → b.tokens ≤ b.capacity
      → granted es b * one ≤ b.capacity + (end - start) * b.rate
  granted-bound start end [] b order timely full = omega arith
  granted-bound start end (paused t seconds ∷ es) b (later, order) timely full =
      let (timely', spent) =
        step_lem start end (paused t seconds) b later (InOrder-end t es end order) timely in
      let rest = granted-budget t end es (after (paused t seconds) b) order timely' in
      let until : end - max b.paused_until (t + seconds) ≤ end - start = omega arith in
      omega (arith, rest, paused-budget t end seconds b, mul-le-mul_right b.rate until)
  granted-bound start end (attempted t ∷ es) b (later, order) timely full =
      let ends = InOrder-end t es end order in
      let inside = mul-le-mul_right {m = end - t} {n = end - start} b.rate (omega arith) in
      elim (Bool-cases (ltb t b.paused_until)) [
        | inl early ↦
            let rest = granted-bound t end es b order (omega arith) full in
            let none_now : 0 + granted es b ≡ granted es b = omega arith in
            subst (λ r. (given r.1 + granted es r.0) * one ≤ b.capacity + (end - start) * b.rate)
              (sym (attempt_early t b early)) (rw none_now (omega (arith, rest, inside)))
        | inr late ↦
            let (timely', spent) = attempt-step t end b ends (omega arith) in
            let rest = granted-budget t end es (attempt one t b).0 order timely' in
            omega (
              arith,
              rest,
              attempt-capped t end b late,
              inside,
              add-mul (given (attempt one t b).1) (granted es (attempt one t b).0) one,
            )
      ]

  -- Between the attempt that was refused and the next one, nothing happens to the bucket: if the
  -- refused attempt was not within a pause, the capacity holds a token, and the time that it was
  -- told to wait has passed, then the next attempt is granted.
  pub attempt-wait :
      (now later : ℕ) (b b' : Bucket) (w : Wait)
      → b.paused_until ≤ now
      → one ≤ b.capacity
      → attempt one now b ≡ (b', some w)
      → now ≤ later
      → w.units ≤ (later - now) * w.per
      → (attempt one later b').1 ≡ none
  attempt-wait now later b b' w active holds refused passed waited =
      let late : ltb now b.paused_until ≡ false = ground arith in
      let late' : ltb later b.paused_until ≡ false = ground arith in
      elim (Bool-cases (leb one (refill one now b).tokens)) [
        | inl enough ↦ absurd (cc (attempt_grants now b late enough))
        | inr short ↦
            let told = attempt_short now b late short in
            let b_eq : refill one now b ≡ b' = cc told in
            let w_eq : record { units = one - (refill one now b).tokens; per = b.rate } ≡ w =
              cc told in
            let yields = rw (← w_eq) at waited in
            let filled : leb one (refill one later (refill one now b)).tokens ≡ true =
              le→leb one _ (omega arith) in
            rw (← b_eq) (rw (attempt_grants later (refill one now b) late' filled) refl)
      ]
