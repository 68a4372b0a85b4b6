-- ===== src/Tests/ErrorRate.antt =====
-- A window of ten, and verdicts at half of the responses or two failures.
use cloudzero_agent.Base.{ℕ, ◌*◌, Bool, true, false, List, [], ◌∷◌, leb, select, ◌≡◌, refl, arith}
use cloudzero_agent.ErrorRate.Defs.{
  ErrorRateTracker, new_error_rate_tracker, is_recent, is_acceptable, is_failure_status,
  record_status, prune_events, evaluate_locked, healthy, healthy_within_cooldown,
}
use cloudzero_agent.ErrorRate.Window.{
  Visit, response, check, responses, step, run_visits, healthy-run_visits,
}
use cloudzero_agent.ErrorRate.Latch.{healthy_within_cooldown-after_unhealthy}

-- At most half of the responses failed.
abbrev at_most_half : ℕ → ℕ → Bool
at_most_half failures total = leb (2 * failures) total

abbrev history : List (ℕ × Visit)
history =
    (1, response 200)
    ∷ (2, response 503)
    ∷ (9, check)
    ∷ (11, response 500)
    ∷ (12, response 599)
    ∷ []

abbrev tracker : ErrorRateTracker
tracker = run_visits at_most_half 2 (new_error_rate_tracker 10) history

unhealthy : (evaluate_locked at_most_half 2 tracker 13).0 ≡ false
unfolding evaluate_locked run_visits is_acceptable prune_events step record_status is_failure_status
unhealthy = refl

healthy_later : (healthy at_most_half 2 tracker 30).0 ≡ true
unfolding healthy evaluate_locked run_visits is_acceptable prune_events step record_status
    is_failure_status
healthy_later = refl

healthy-run_visits_example :
    (healthy at_most_half 2 tracker 13).0
    ≡ is_acceptable at_most_half 2 (select (is_recent 10 13) (responses history))
healthy-run_visits_example =
    healthy-run_visits at_most_half 2 10 history 13
      (omega arith, (omega arith, (omega arith, (omega arith, (omega arith, omega arith)))))

healthy_within_cooldown-after_unhealthy_example :
    (healthy_within_cooldown at_most_half 2
      (run_visits at_most_half 2
        (evaluate_locked at_most_half 2 tracker 13).1
        ((20, response 200) ∷ []))
      40
      40
      60).0
    ≡ false
healthy_within_cooldown-after_unhealthy_example =
    healthy_within_cooldown-after_unhealthy at_most_half 2 tracker 13 40 40 60
      ((20, response 200) ∷ []) unhealthy (omega arith, omega arith) (omega arith)
