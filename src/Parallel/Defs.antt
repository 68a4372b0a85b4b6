-- ===== src/Parallel/Defs.antt =====
-- `Manager` and `Waiter`, where the caller queues its tasks and then waits, and reads no error, as
-- `HandleRequest` of app/domain/shipper/shipper.go does. A task is known by whether it fails. An
-- interleaving of the goroutines is a list of moves; a move that blocks gives `none`.
use cloudzero_agent.Base.{
  ℕ, suc, zero, ◌+◌, Bool, true, false, ◌&&◌, Option, none, some, List, [], ◌∷◌, ltb, eqb,
  if◌then◌else◌,
}

abbrev pub min_num_workers : ℕ
min_num_workers = 2

abbrev pub err_channel_buffer : ℕ
err_channel_buffer = 100

-- `queue` holds the tasks that `Run` was not called for yet or waits in `acquire` with; `succeeding`
-- and `failing` count the workers whose task succeeds or fails; `errors` those in the channel.
pub record Pool : Type 0 where
  pub workers : ℕ
  pub queue : List Bool
  pub succeeding : ℕ
  pub failing : ℕ
  pub errors : ℕ

-- `New` with a count that is not negative; the waiter is a new one.
unfoldable pub new_pool : ℕ → List Bool → Pool
new_pool worker_count tasks = record {
  workers = if ltb worker_count min_num_workers then min_num_workers else worker_count;
  queue = tasks;
  succeeding = 0;
  failing = 0;
  errors = 0;
}

-- `Run` starts a task; a task ends without an error; a task sends its error and ends.
pub data Move : Type 0 where
  start succeed fail : Move

-- A worker is given to a task.
abbrev pub begin_task : Bool → List Bool → Pool → Pool
begin_task true tasks p = record p { queue = tasks; failing = suc p.failing }
begin_task false tasks p = record p { queue = tasks; succeeding = suc p.succeeding }

-- The semaphore has room for as many tasks as there are workers.
unfoldable pub start_from : List Bool → Pool → Option Pool
start_from [] p = none
start_from (t ∷ tasks) p =
    if ltb (p.succeeding + p.failing) p.workers then some (begin_task t tasks p) else none

unfoldable pub succeed_from : ℕ → Pool → Option Pool
succeed_from zero p = none
succeed_from (suc n) p = some (record p { succeeding = n })

-- The send blocks while the channel is full.
unfoldable pub fail_from : ℕ → Pool → Option Pool
fail_from zero p = none
fail_from (suc n) p =
    if ltb p.errors err_channel_buffer
    then some (record p { failing = n; errors = suc p.errors })
    else none

unfoldable pub move : Move → Pool → Option Pool
move start p = start_from p.queue p
move succeed p = succeed_from p.succeeding p
move fail p = fail_from p.failing p

-- `Wait` returns: every task has ended.
abbrev is_empty : List Bool → Bool
is_empty [] = true
is_empty (t ∷ tasks) = false

unfoldable pub has_finished : Pool → Bool
has_finished p = is_empty p.queue && eqb p.succeeding 0 && eqb p.failing 0

abbrev pub then_run : (Pool → Option Pool) → Option Pool → Option Pool
then_run k none = none
then_run k (some p) = k p

unfoldable pub run_moves : List Move → Pool → Option Pool
run_moves [] p = some p
run_moves (m ∷ moves) p = then_run (run_moves moves) (move m p)
