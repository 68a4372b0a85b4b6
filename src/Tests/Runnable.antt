-- ===== src/Tests/Runnable.antt =====
-- A service that is started, works, is shut down and started again; and two that end badly.
use cloudzero_agent.Base.{List, [], ◌∷◌, ◌==◌, some, true, refl, ◌≡◌, steps}
use mathlib.Core.Option.{map}
use cloudzero_agent.Runnable.Defs.{
  Service, Event, run_call, shutdown_call, shutdown_end, observe_done, tick, parent_cancel,
  new_service, step, run, shutdown, end_shutdown, observe_from, panic_from,
}
use cloudzero_agent.Runnable.Purge.{purge}
use cloudzero_agent.Runnable.Laws.{IsManaged, steps-IsManaged}

program : Unit {0}
unfolding steps step run shutdown end_shutdown observe_from panic_from
program = tt

-- Started twice, shut down, and started again.
abbrev restart : List Event
restart = run_call ∷ tick ∷ run_call ∷ shutdown_call ∷ observe_done ∷ shutdown_end ∷ run_call ∷ []

abbrev restarted : Service
restarted = record new_service { running = true; live = 1 }

steps-IsManaged_example : IsManaged restarted
unfolding program
steps-IsManaged_example = steps-IsManaged restart restarted refl refl

abbrev failed : Service
failed = record new_service { running = true; closed = true }

-- A service that is started again after the end of the context given to `New`.
started_after_the_end :
    map
      (λ s. s.crashed)
      (steps step
        (run_call ∷ parent_cancel ∷ observe_done ∷ run_call ∷ observe_done ∷ [])
        new_service)
    ≡ some true
unfolding program
started_after_the_end = refl

-- One record that cannot be deleted keeps them all.
none_purged :
    purge
      (record { expired = some ("a" ∷ "b" ∷ []); can_delete = λ id. id == "a"; can_commit = true })
    ≡ []
none_purged = refl
