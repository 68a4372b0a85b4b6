-- ===== src/ErrorRate/Latch.antt =====
-- Unhealthy verdicts and the cooldown.
use cloudzero_agent.Base.{
  ℕ, ◌+◌, ◌≤◌, Bool, false, some, List, [], ◌∷◌, Bool-cases, inl, inr, ◌≡◌, refl, arith,
}
use cloudzero_agent.ErrorRate.Defs.{
  ErrorRateTracker, is_acceptable, prune_events, record_status, evaluate_locked,
  healthy_within_cooldown,
}
use cloudzero_agent.ErrorRate.Window.{Visit, response, check, IsOrdered, step, run_visits}

module _ (within : ℕ → ℕ → Bool) (min_failures : ℕ) where
  -- The last unhealthy verdict is known, and is not older than a time.
  record IsLatched (since : ℕ) (t : ErrorRateTracker) : Type 0 where
    at : ℕ
    known : t.last_unhealthy_at ≡ some at
    recent : since ≤ at

  evaluate_locked-IsLatched :
      (since now : ℕ) (t : ErrorRateTracker)
      → since ≤ now
      → IsLatched since t
      → IsLatched since (evaluate_locked within min_failures t now).1
  unfolding evaluate_locked
  evaluate_locked-IsLatched since now t h w =
      elim (Bool-cases (is_acceptable within min_failures (prune_events t.window now t.events))) [
        | inl e ↦ rw e (record { at = w.at; known = w.known; recent = w.recent })
        | inr e ↦ rw e (record { at = now; known = refl; recent = h })
      ]

  run_visits-IsLatched :
      (since start now : ℕ) (t : ErrorRateTracker) (history : List (ℕ × Visit))
      → since ≤ start
      → IsOrdered start history now
      → IsLatched since t
      → IsLatched since (run_visits within min_failures t history)
  unfolding run_visits step record_status
  run_visits-IsLatched since start now t [] p h w = w
  run_visits-IsLatched since start now t ((at, response code) ∷ history) p (h, hs) w =
      run_visits-IsLatched since at now (record_status t at code) history (omega arith) hs
        (record { at = w.at; known = w.known; recent = w.recent })
  run_visits-IsLatched since start now t ((at, check) ∷ history) p (h, hs) w =
      run_visits-IsLatched since at now (evaluate_locked within min_failures t at).1 history
        (omega arith) hs (evaluate_locked-IsLatched since at t (omega arith) w)

  ordered_le :
      (start now : ℕ) (history : List (ℕ × Visit)) → IsOrdered start history now → start ≤ now
  ordered_le start now [] h = h
  ordered_le start now ((at, v) ∷ history) (h, hs) = omega (arith, ordered_le at now history hs)

  unhealthy-IsLatched :
      (since : ℕ) (t : ErrorRateTracker)
      → (evaluate_locked within min_failures t since).0 ≡ false
      → IsLatched since (evaluate_locked within min_failures t since).1
  unfolding evaluate_locked
  unhealthy-IsLatched since t e =
      elim (Bool-cases (is_acceptable within min_failures (prune_events t.window since t.events))) [
        | inl f ↦ absurd (ground arith)
        | inr f ↦ rw f (record { at = since; known = refl; recent = omega arith })
      ]

  -- Once an evaluation was unhealthy, `HealthyWithinCooldown` answers false until more than the
  -- cooldown has passed, whatever responses and health checks come in between, on a clock that does
  -- not go back.
  pub healthy_within_cooldown-after_unhealthy :
      (t : ErrorRateTracker) (since now later cooldown : ℕ) (history : List (ℕ × Visit))
      → (evaluate_locked within min_failures t since).0 ≡ false
      → IsOrdered since history now
      → later ≤ since + cooldown
      → (healthy_within_cooldown within min_failures
          (run_visits within min_failures (evaluate_locked within min_failures t since).1 history)
          now
          later
          cooldown).0
        ≡ false
  unfolding healthy_within_cooldown
  healthy_within_cooldown-after_unhealthy t since now later cooldown history e h soon =
      let t₁ = (evaluate_locked within min_failures t since).1 in
      let t₂ = run_visits within min_failures t₁ history in
      let latched =
        run_visits-IsLatched since since now t₁ history (omega arith) h
          (unhealthy-IsLatched since t e) in
      let w = evaluate_locked-IsLatched since now t₂ (ordered_le since now history h) latched in
      elim (Bool-cases (evaluate_locked within min_failures t₂ now).0) [
        | inl f ↦ rw (f, w.known) (ground (arith, w.recent))
        | inr f ↦ rw f refl
      ]
