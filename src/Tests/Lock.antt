-- ===== src/Tests/Lock.antt =====
-- Two processes and a lock that was left by a third one.
use cloudzero_agent.Base.{ℕ, true, none, some, List, [], ◌∷◌, ◌++◌, update, steps, ◌≡◌, refl, arith}
use cloudzero_agent.Lock.Defs.{
  written, Phase, holding, stale_seen, acquire, create, write, begin_refresh, check, rename, read,
  release, Config, move, Locks, Event, tick, act, step, holds,
}
use cloudzero_agent.Lock.Exclusion.{steps-exclusive}
use cloudzero_agent.Lock.Race.{take_over, steps-take_over_twice}

program : Unit {0}
unfolding steps step move update
program = tt

abbrev config : Config
config = record { stale_timeout = 3; max_retry = 5 }

-- Process 1 takes, refreshes and releases the lock while process 2 tries; then process 2 takes it.
abbrev hand_over : List Event
hand_over =
    act 1 acquire
    ∷ act 1 create
    ∷ act 2 acquire
    ∷ act 1 write
    ∷ act 2 create
    ∷ act 2 read
    ∷ tick
    ∷ act 1 begin_refresh
    ∷ act 1 check
    ∷ act 1 rename
    ∷ act 1 release
    ∷ act 2 create
    ∷ act 2 write
    ∷ []

abbrev handed_over : Locks
handed_over = record {
  now = 1;
  file = some (written 2 1);
  phase =
      update
        (update
          (update
            (update
              (update
                (update
                  (update
                    (update
                      (update
                        (update
                          (update (update (λ p. Phase.idle) 1 (Phase.trying 0)) 1 Phase.opened) 2
                          (Phase.trying 0))
                        1 holding)
                      2 (Phase.present 0))
                    2 (Phase.trying 1))
                  1 (Phase.updating 1))
                1 (Phase.checked 1))
              1 holding)
            1 Phase.idle)
          2 Phase.opened)
        2 holding;
}

steps-exclusive_example : Path ℕ 2 2
unfolding program
steps-exclusive_example = steps-exclusive config hand_over none handed_over 2 2 refl refl refl refl

-- Both have read the lock of process 0.
abbrev both_stale : Locks
both_stale = record { now = 4; file = some (written 0 0); phase = λ p. stale_seen 0 }

steps-take_over_twice_example :
    (t : Locks) × (steps (step config) (take_over 1 ++ take_over 2) both_stale ≡ some t)
    × (holds (t.phase 1) ≡ true)
    × (holds (t.phase 2) ≡ true)
    × (t.file ≡ some (written 2 t.now))
steps-take_over_twice_example =
    steps-take_over_twice config both_stale 1 2 0 0 (λ e. ground arith) refl refl (omega arith)
      (omega arith)
