-- ===== src/ErrorRate/Defs.antt =====
-- `ErrorRateTracker` and its operations. Times and durations are numbers of nanoseconds; each reading
-- of the clock is an argument. The mutex makes each operation one step.
use cloudzero_agent.Base.{
  ℕ, ◌+◌, ◌-◌, Bool, true, false, ◌&&◌, Option, none, some, List, [], ◌∷◌, ◌++◌, length, ltb, leb,
  eqb, if◌then◌else◌, count_if,
}

pub record ErrorRateEvent : Type 0 where
  pub at : ℕ
  pub failure : Bool

-- The zero time of `lastUnhealthyAt` is `none`.
pub record ErrorRateTracker : Type 0 where
  pub window : ℕ
  pub events : List ErrorRateEvent
  pub last_unhealthy_at : Option ℕ

abbrev pub new_error_rate_tracker : ℕ → ErrorRateTracker
new_error_rate_tracker window = record { window = window; events = []; last_unhealthy_at = none }

abbrev status_codes_end : ℕ
status_codes_end = 600

unfoldable pub is_failure_status : ℕ → Bool
is_failure_status code = leb 500 code && ltb code status_codes_end

-- `e.at.After(now.Add(-window))`
abbrev pub is_recent : ℕ → ℕ → ErrorRateEvent → Bool
is_recent window now e = ltb now (e.at + window)

-- The events from the first recent one on.
unfoldable pub prune_events : ℕ → ℕ → List ErrorRateEvent → List ErrorRateEvent
prune_events window now [] = []
prune_events window now (e ∷ events) =
    let rest = prune_events window now events in if is_recent window now e then e ∷ events else rest

unfoldable pub prune : ErrorRateTracker → ℕ → ErrorRateTracker
prune t now = record t { events = prune_events t.window now t.events }

-- `Record` at a time.
unfoldable pub record_status : ErrorRateTracker → ℕ → ℕ → ErrorRateTracker
unfolding prune
record_status t now code =
    let pruned = prune t now in
    record pruned {
      events = pruned.events ++ record { at = now; failure = is_failure_status code } ∷ [];
    }

-- `within failures total` is the comparison of the quotient, as a float64, with the threshold.
module _ (within : ℕ → ℕ → Bool) (min_failures : ℕ) where
  -- The verdict on the events of the window.
  unfoldable pub is_acceptable : List ErrorRateEvent → Bool
  is_acceptable events =
      let failures = count_if (λ (e : ErrorRateEvent). e.failure) events in
      if eqb (length events) 0
      then true
      else if ltb failures min_failures
      then true
      else within failures (length events)

  unfoldable pub evaluate_locked : ErrorRateTracker → ℕ → Bool × ErrorRateTracker
  unfolding prune
  evaluate_locked t now =
      let pruned = prune t now in
      if is_acceptable pruned.events
      then (true, pruned)
      else (false, record pruned { last_unhealthy_at = some now })

  unfoldable pub healthy : ErrorRateTracker → ℕ → Bool × ErrorRateTracker
  healthy t now = evaluate_locked t now

  -- `t.lastUnhealthyAt.IsZero()`, else the test of the time since then.
  abbrev pub cooled_down : Option ℕ → ℕ → ℕ → Bool
  cooled_down none later cooldown = true
  cooled_down (some at) later cooldown = ltb cooldown (later - at)

  -- `HealthyWithinCooldown` reads the clock twice.
  unfoldable pub healthy_within_cooldown : ErrorRateTracker → ℕ → ℕ → ℕ → Bool × ErrorRateTracker
  healthy_within_cooldown t now later cooldown =
      let (verdict, t') = evaluate_locked t now in
      if verdict then (cooled_down t'.last_unhealthy_at later cooldown, t') else (false, t')
