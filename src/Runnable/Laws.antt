-- ===== src/Runnable/Laws.antt =====
-- The goroutines and the channel over whole histories.
use cloudzero_agent.Base.{
  ℕ, zero, suc, ◌+◌, Bool, true, false, ◌||◌, some, List, all, steps, steps_inv, of_some, ◌≡◌, refl,
  arith,
}
use cloudzero_agent.Runnable.Defs.{
  Service, Event, run_call, shutdown_call, shutdown_end, observe_done, worker_panic, tick,
  parent_cancel, new_service, run, shutdown, end_shutdown, observe_from, panic_from, step,
  tick_from,
}

abbrev pub num : Bool → ℕ
num true = 1
num false = 0

-- While the service runs or is being shut down, either one goroutine is alive or `done` is closed;
-- otherwise neither is so.
pub record IsManaged (s : Service) : Type 0 where
  pub one_worker : s.live + num s.closed ≡ num (s.running || s.waiting)
  pub own_context : s.cancelled ≡ s.waiting
  pub parent_lives : s.parent_cancelled ≡ false
  pub no_crash : s.crashed ≡ false

abbrev pub keeps_parent : Event → Bool
keeps_parent parent_cancel = false
keeps_parent _ = true

observe_from-IsManaged :
    (n : ℕ) (s t : Service) → s.live ≡ n → IsManaged s → observe_from n s ≡ some t → IsManaged t
unfolding observe_from
observe_from-IsManaged zero s t h w e = absurd (ground arith)
observe_from-IsManaged (suc n) s t h w e = ground arith

panic_from-IsManaged :
    (n : ℕ) (s t : Service) → s.live ≡ n → IsManaged s → panic_from n s ≡ some t → IsManaged t
unfolding panic_from
panic_from-IsManaged zero s t h w e = absurd (ground arith)
panic_from-IsManaged (suc n) s t h w e = ground arith

tick_from-IsManaged : (n : ℕ) (s t : Service) → IsManaged s → tick_from n s ≡ some t → IsManaged t
tick_from-IsManaged zero s t w e = absurd (ground arith)
tick_from-IsManaged (suc n) s t w e = of_some IsManaged s t e w

step-IsManaged :
    (e : Event) (s t : Service)
    → keeps_parent e ≡ true
    → IsManaged s
    → step e s ≡ some t
    → IsManaged t
unfolding step run shutdown end_shutdown
step-IsManaged run_call s t k w e = ground arith
step-IsManaged shutdown_call s t k w e = ground arith
step-IsManaged shutdown_end s t k w e = ground arith
step-IsManaged observe_done s t k w e = observe_from-IsManaged s.live s t refl w e
step-IsManaged worker_panic s t k w e = panic_from-IsManaged s.live s t refl w e
step-IsManaged tick s t k w e = tick_from-IsManaged s.live s t w e
step-IsManaged parent_cancel s t k w e = absurd (ground arith)

-- As long as the context that was given to `New` is not cancelled, no history of calls, ticks and
-- recovered panics crashes the process or leaves two goroutines; while the service counts as running
-- or is being shut down there is one goroutine or the channel `done` is closed.
pub steps-IsManaged :
    (events : List Event) (s : Service)
    → all keeps_parent events ≡ true
    → steps step events new_service ≡ some s
    → IsManaged s
steps-IsManaged events s k e =
    steps_inv step keeps_parent IsManaged step-IsManaged events new_service s k
      (record {
        one_worker = omega arith;
        own_context = refl;
        parent_lives = refl;
        no_crash = refl;
      })
      e

-- Any call but `Shutdown`, and any end of a goroutine.
abbrev pub no_shutdown : Event → Bool
no_shutdown shutdown_call = false
no_shutdown _ = true

-- The service counts as running, but nothing works for it.
pub record IsDead (s : Service) : Type 0 where
  pub running : s.running ≡ true
  pub no_worker : s.live ≡ 0
  pub not_waiting : s.waiting ≡ false

step-IsDead :
    (e : Event) (s t : Service) → no_shutdown e ≡ true → IsDead s → step e s ≡ some t → IsDead t
unfolding step run end_shutdown observe_from panic_from
step-IsDead run_call s t k w e = ground arith
step-IsDead shutdown_call s t k w e = absurd (ground arith)
step-IsDead shutdown_end s t k w e = ground arith
step-IsDead observe_done s t k w e = ground arith
step-IsDead worker_panic s t k w e = ground arith
step-IsDead tick s t k w e = ground arith
step-IsDead parent_cancel s t k w e = ground arith

panic_from-IsDead :
    (n : ℕ) (s t : Service)
    → s.live ≡ n
    → IsManaged s
    → s.running ≡ true
    → s.waiting ≡ false
    → panic_from n s ≡ some t
    → IsDead t
unfolding panic_from
panic_from-IsDead zero s t h w r q e = absurd (ground arith)
panic_from-IsDead (suc n) s t h w r q e = ground arith

-- After a panic in the goroutine of a running service, `IsRunning` still answers true, and whatever
-- else happens, calls of `Run` included, no goroutine is started until `Shutdown` is called.
pub steps_after_panic :
    (events before : List Event) (s t u : Service)
    → all keeps_parent before ≡ true
    → steps step before new_service ≡ some s
    → s.running ≡ true
    → s.waiting ≡ false
    → step worker_panic s ≡ some t
    → all no_shutdown events ≡ true
    → steps step events t ≡ some u
    → IsDead u
steps_after_panic events before s t u k b running waiting p n e =
    steps_inv step no_shutdown IsDead step-IsDead events t u n
      (panic_from-IsDead s.live s t refl (steps-IsManaged before s k b) running waiting
        (unfold step in p))
      e
