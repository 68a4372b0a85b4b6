-- ===== src/Runnable/Defs.antt =====
-- A service with its goroutines. `none` is a move that is not possible, or that blocks.
use cloudzero_agent.Base.{
  ℕ, zero, suc, Bool, true, false, ◌||◌, ◌&&◌, Option, none, some, if◌then◌else◌,
}

-- `running` is the field, `live` the number of goroutines, `closed` whether the channel `done` is
-- closed, `waiting` whether a `Shutdown` holds the mutex and waits for it; `crashed` is a panic that
-- nothing recovers, which ends the process.
pub record Service : Type 0 where
  pub running : Bool
  pub cancelled : Bool
  pub parent_cancelled : Bool
  pub closed : Bool
  pub waiting : Bool
  pub live : ℕ
  pub crashed : Bool

-- `New`; its context is a child of the one that it is given.
abbrev pub new_service : Service
new_service = record {
  running = false;
  cancelled = false;
  parent_cancelled = false;
  closed = false;
  waiting = false;
  live = 0;
  crashed = false;
}

-- Calls of `Run` and of `Shutdown` up to its wait, its end, the two ways in which a goroutine ends,
-- one tick of a goroutine, and the end of the context that was given to `New`.
pub data Event : Type 0 where
  run_call shutdown_call shutdown_end observe_done worker_panic tick parent_cancel : Event

-- The deferred `close(done)`: closing a closed channel panics, after the deferred `recover` has run.
abbrev pub close_done : Service → Service
close_done s = if s.closed then record s { crashed = true } else record s { closed = true }

unfoldable pub run : Service → Option Service
run s =
    if s.waiting
    then none
    else some (if s.running then s else record s { running = true; live = suc s.live })

unfoldable pub shutdown : Service → Option Service
shutdown s =
    if s.waiting
    then none
    else some (if s.running then record s { cancelled = true; waiting = true } else s)

-- `<-done` returns when the channel is closed; then `reset` makes a new context and a new channel.
unfoldable pub end_shutdown : Service → Option Service
end_shutdown s =
    if s.waiting && s.closed
    then some (record s { running = false; cancelled = false; closed = false; waiting = false })
    else none

-- A goroutine takes the case `ctx.Done()`.
unfoldable pub observe_from : ℕ → Service → Option Service
observe_from zero s = none
observe_from (suc n) s =
    if s.cancelled || s.parent_cancelled
    then some (close_done (record s { running = false; live = n }))
    else none

-- A goroutine panics in its work and recovers; `running` is left as it is.
unfoldable pub panic_from : ℕ → Service → Option Service
panic_from zero s = none
panic_from (suc n) s = some (close_done (record s { live = n }))

-- A goroutine does its work for a tick.
abbrev pub tick_from : ℕ → Service → Option Service
tick_from zero s = none
tick_from (suc n) s = some s

unfoldable pub step : Event → Service → Option Service
step run_call s = run s
step shutdown_call s = shutdown s
step shutdown_end s = end_shutdown s
step observe_done s = observe_from s.live s
step worker_panic s = panic_from s.live s
step tick s = tick_from s.live s
step parent_cancel s = some (record s { parent_cancelled = true })
