-- ===== src/ErrorRate/Window.antt =====
-- The events that are kept, against the responses of a whole history.
use mathlib.Core.List.{append-nil, append_assoc}
use cloudzero_agent.Base.{
  ℕ, ◌≤◌, Bool, List, [], ◌∷◌, ◌++◌, select, All, All-append, All-map, Bool-cases, inl, inr, ◌≡◌,
  refl, sym, ◌∙◌, ap, arith,
}
use cloudzero_agent.ErrorRate.Defs.{
  ErrorRateEvent, ErrorRateTracker, is_recent, prune_events, prune, record_status, is_acceptable,
  evaluate_locked, healthy, is_failure_status, new_error_rate_tracker,
}

-- A response with its status, or a health check of either kind.
pub data Visit : Type 0 where
  response : ℕ → Visit
  check : Visit

-- The times of a history do not decrease, from one time to another.
abbrev pub IsOrdered : ℕ → List (ℕ × Visit) → ℕ → Type 0
IsOrdered start [] stop = start ≤ stop
IsOrdered start ((now, v) ∷ history) stop = (start ≤ now) × IsOrdered now history stop

-- The responses of a history.
pub responses : List (ℕ × Visit) → List ErrorRateEvent
responses [] = []
responses ((now, response code) ∷ history) =
    record { at = now; failure = is_failure_status code } ∷ responses history
responses ((now, check) ∷ history) = responses history

select-append {ℓ} :
    {A : Type ℓ} (p : A → Bool) (xs ys : List A) → select p (xs ++ ys) ≡ select p xs ++ select p ys
select-append p [] ys = refl
select-append p (x ∷ xs) ys = ground (arith, select-append p xs ys)

module _ (window : ℕ) where
  prune_events-twice :
      (m n : ℕ) (events : List ErrorRateEvent)
      → m ≤ n
      → prune_events window n (prune_events window m events) ≡ prune_events window n events
  unfolding prune_events
  prune_events-twice m n [] h = refl
  prune_events-twice m n (e ∷ events) h = ground (arith, prune_events-twice m n events h)

  prune_events-append :
      (n : ℕ) (events : List ErrorRateEvent) (e : ErrorRateEvent)
      → All (λ x. x.at ≤ e.at) events
      → prune_events window n (events ++ e ∷ [])
        ≡ prune_events window n events ++ select (is_recent window n) (e ∷ [])
  unfolding prune_events
  prune_events-append n [] e h = ground arith
  prune_events-append n (x ∷ events) e (h, hs) = ground (arith, prune_events-append n events e hs)

  All-prune_events :
      (P : ErrorRateEvent → Type 0) (n : ℕ) (events : List ErrorRateEvent)
      → All P events
      → All P (prune_events window n events)
  unfolding prune_events
  All-prune_events P n [] h = tt
  All-prune_events P n (e ∷ events) (h, hs) = elim (Bool-cases (is_recent window n e)) [
    | inl r ↦ rw r ((h, hs))
    | inr r ↦ rw r (All-prune_events P n events hs)
  ]

-- The tracker at a time, against everything that was recorded.
record Tracks (t : ErrorRateTracker) (all : List ErrorRateEvent) (now : ℕ) : Type 0 where
  older : All (λ x. x.at ≤ now) t.events
  exact : (n : ℕ) → now ≤ n → prune_events t.window n t.events ≡ select (is_recent t.window n) all

prune-Tracks :
    (t : ErrorRateTracker) (all : List ErrorRateEvent) (start now : ℕ)
    → start ≤ now
    → Tracks t all start
    → Tracks (prune t now) all now
unfolding prune
prune-Tracks t all start now h w = record {
  older =
      All-prune_events t.window (λ x. x.at ≤ now) now t.events
        (All-map (λ x. x.at ≤ start) (λ x. x.at ≤ now) t.events (λ x p. omega arith) w.older);
  exact = λ n p. prune_events-twice t.window now n t.events p ∙ w.exact n (omega arith);
}

record_status-Tracks :
    (t : ErrorRateTracker) (all : List ErrorRateEvent) (start now code : ℕ)
    → start ≤ now
    → Tracks t all start
    → Tracks
        (record_status t now code)
        (all ++ record { at = now; failure = is_failure_status code } ∷ [])
        now
unfolding record_status
record_status-Tracks t all start now code h w =
    let e : ErrorRateEvent = record { at = now; failure = is_failure_status code } in
    let pruned = prune-Tracks t all start now h w in
    record {
      older =
          All-append (λ x. x.at ≤ now) (prune t now).events (e ∷ []) pruned.older (omega arith, tt);
      exact = λ n p.
          prune_events-append t.window n (prune t now).events e pruned.older
          ∙ ap (λ l. l ++ select (is_recent t.window n) (e ∷ [])) (pruned.exact n p)
          ∙ sym (select-append (is_recent t.window n) all (e ∷ []));
    }

record_status-window :
    (t : ErrorRateTracker) (now code : ℕ) → (record_status t now code).window ≡ t.window
unfolding record_status
record_status-window t now code = refl

module _ (within : ℕ → ℕ → Bool) (min_failures : ℕ) where
  unfoldable pub step : ErrorRateTracker → ℕ → Visit → ErrorRateTracker
  step t now (response code) = record_status t now code
  step t now check = (evaluate_locked within min_failures t now).1

  unfoldable pub run_visits : ErrorRateTracker → List (ℕ × Visit) → ErrorRateTracker
  run_visits t [] = t
  run_visits t ((now, v) ∷ history) = run_visits (step t now v) history

  evaluate_locked-Tracks :
      (t : ErrorRateTracker) (all : List ErrorRateEvent) (start now : ℕ)
      → start ≤ now
      → Tracks t all start
      → Tracks (evaluate_locked within min_failures t now).1 all now
  unfolding evaluate_locked prune
  evaluate_locked-Tracks t all start now h w =
      let pruned = prune-Tracks t all start now h w in
      elim (Bool-cases (is_acceptable within min_failures (prune t now).events)) [
        | inl e ↦ rw e pruned
        | inr e ↦ rw e (record { older = pruned.older; exact = pruned.exact })
      ]

  evaluate_locked-window :
      (t : ErrorRateTracker) (now : ℕ)
      → (evaluate_locked within min_failures t now).1.window ≡ t.window
  unfolding evaluate_locked
  evaluate_locked-window t now = ground arith

  -- The tracker after a history holds the recent ones of all responses.
  run_visits-exact :
      (window : ℕ) (t : ErrorRateTracker) (all : List ErrorRateEvent) (start : ℕ)
      (history : List (ℕ × Visit)) (now : ℕ)
      → t.window ≡ window
      → IsOrdered start history now
      → Tracks t all start
      → prune_events window now (run_visits t history).events
        ≡ select (is_recent window now) (all ++ responses history)
  unfolding run_visits responses step
  run_visits-exact window t all start [] now same h w =
      rw (sym same) (w.exact now h ∙ ap (select (is_recent t.window now)) (sym (append-nil all)))
  run_visits-exact window t all start ((at, response code) ∷ history) now same (h, hs) w =
      let e : ErrorRateEvent = record { at = at; failure = is_failure_status code } in
      run_visits-exact window (record_status t at code) (all ++ e ∷ []) at history now
        (record_status-window t at code ∙ same) hs (record_status-Tracks t all start at code h w)
      ∙ ap (select (is_recent window now)) (append_assoc all (e ∷ []) (responses history))
  run_visits-exact window t all start ((at, check) ∷ history) now same (h, hs) w =
      run_visits-exact window (evaluate_locked within min_failures t at).1 all at history now
        (evaluate_locked-window t at ∙ same) hs (evaluate_locked-Tracks t all start at h w)

  run_visits-window :
      (t : ErrorRateTracker) (history : List (ℕ × Visit)) → (run_visits t history).window ≡ t.window
  unfolding run_visits step record_status
  run_visits-window t [] = refl
  run_visits-window t ((now, response code) ∷ history) =
      run_visits-window (record_status t now code) history
  run_visits-window t ((now, check) ∷ history) =
      run_visits-window (evaluate_locked within min_failures t now).1 history
      ∙ evaluate_locked-window t now

  verdict-evaluate_locked :
      (t : ErrorRateTracker) (now : ℕ)
      → (evaluate_locked within min_failures t now).0
        ≡ is_acceptable within min_failures (prune_events t.window now t.events)
  unfolding evaluate_locked
  verdict-evaluate_locked t now = ground arith

  -- On a clock that does not go back, `Healthy` judges exactly the responses of the window, the ones
  -- later than the time of the call less the window, whatever responses and health checks came
  -- before; that events are dropped as soon as one is pruned loses none that counts.
  pub healthy-run_visits :
      (window : ℕ) (history : List (ℕ × Visit)) (now : ℕ)
      → IsOrdered 0 history now
      → (healthy within min_failures (run_visits (new_error_rate_tracker window) history) now).0
        ≡ is_acceptable within min_failures (select (is_recent window now) (responses history))
  unfolding healthy prune_events
  healthy-run_visits window history now h =
      let t = new_error_rate_tracker window in
      let exact =
        run_visits-exact window t [] 0 history now refl h
          (record { older = tt; exact = λ n p. refl }) in
      verdict-evaluate_locked (run_visits t history) now
      ∙ rw (run_visits-window t history) (ap (is_acceptable within min_failures) exact)
