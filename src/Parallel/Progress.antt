-- ===== src/Parallel/Progress.antt =====
-- The ends of the interleavings of a pool.
use mathlib.Core.Path.{subst}
use cloudzero_agent.Base.{
  ltb→lt, ℕ, suc, zero, ◌+◌, ◌*◌, ◌≤◌, ◌<◌, Bool, true, false, Option, none, some, List, [], ◌∷◌,
  length, count_if, ltb, Bool-cases, Option-cases, inl, inr, ◌≡◌, refl, ap, arith,
}
use cloudzero_agent.Parallel.Defs.{
  Pool, Move, start, succeed, fail, new_pool, begin_task, start_from, succeed_from, fail_from, move,
  has_finished, run_moves, err_channel_buffer,
}

-- The number of tasks that fail.
abbrev pub failures : List Bool → ℕ
failures tasks = count_if (λ (t : Bool). t) tasks

-- The number of moves that are left.
abbrev pub moves_left : Pool → ℕ
moves_left p = length p.queue + length p.queue + p.succeeding + p.failing

-- What every interleaving keeps: where the failing tasks are, and the room in the channel.
record Accounts (p : Pool) (all : ℕ) : Type 0 where
  failed : failures p.queue + p.failing + p.errors ≡ all
  room : p.errors ≤ err_channel_buffer
  some_workers : 0 < p.workers

abbrev Moved : Pool → ℕ → Pool → Type 0
Moved p all q = (moves_left p ≡ suc (moves_left q)) × Accounts q all

abbrev pool_or : Pool → Option Pool → Pool
pool_or p none = p
pool_or p (some q) = q

-- What holds of the pool that a move gives holds of its result.
moved : (p r q : Pool) (all : ℕ) → some r ≡ some q → Moved p all r → Moved p all q
moved p r q all e w = subst (Moved p all) (ap (pool_or p) e) w

start-Accounts :
    (tasks : List Bool) (p q : Pool) (all : ℕ)
    → p.queue ≡ tasks
    → Accounts p all
    → start_from tasks p ≡ some q
    → Moved p all q
unfolding start_from
start-Accounts [] p q all h w e = absurd (ground arith)
start-Accounts (true ∷ tasks) p q all h w e =
    let fails : failures p.queue ≡ suc (failures tasks) = ap failures h in
    let longer : length p.queue ≡ suc (length tasks) = ap length h in
    elim (Bool-cases (ltb (p.succeeding + p.failing) p.workers)) [
      | inl f ↦ moved p (begin_task true tasks p) q all (rw f at e) (
        omega (arith, longer),
        record {
          failed = omega (arith, fails, w.failed);
          room = w.room;
          some_workers = w.some_workers;
        },
      )
      | inr f ↦ absurd (ground arith)
    ]
start-Accounts (false ∷ tasks) p q all h w e =
    let fails : failures p.queue ≡ failures tasks = ap failures h in
    let longer : length p.queue ≡ suc (length tasks) = ap length h in
    elim (Bool-cases (ltb (p.succeeding + p.failing) p.workers)) [
      | inl f ↦ moved p (begin_task false tasks p) q all (rw f at e) (
        omega (arith, longer),
        record {
          failed = omega (arith, fails, w.failed);
          room = w.room;
          some_workers = w.some_workers;
        },
      )
      | inr f ↦ absurd (ground arith)
    ]

succeed-Accounts :
    (n : ℕ) (p q : Pool) (all : ℕ)
    → p.succeeding ≡ n
    → Accounts p all
    → succeed_from n p ≡ some q
    → Moved p all q
unfolding succeed_from
succeed-Accounts zero p q all h w e = absurd (ground arith)
succeed-Accounts (suc n) p q all h w e =
    moved p (record p { succeeding = n }) q all e
      (omega (arith, h), record { failed = w.failed; room = w.room; some_workers = w.some_workers })

fail-Accounts :
    (n : ℕ) (p q : Pool) (all : ℕ)
    → p.failing ≡ n
    → Accounts p all
    → fail_from n p ≡ some q
    → Moved p all q
unfolding fail_from
fail-Accounts zero p q all h w e = absurd (ground arith)
fail-Accounts (suc n) p q all h w e = elim (Bool-cases (ltb p.errors err_channel_buffer)) [
  | inl f ↦
      moved p (record p { failing = n; errors = suc p.errors }) q all (rw f at e)
        (
          omega (arith, h),
          record {
            failed = omega (arith, h, w.failed);
            room = ltb→lt p.errors err_channel_buffer f;
            some_workers = w.some_workers;
          },
        )
  | inr f ↦ absurd (ground arith)
]

move-Accounts :
    (m : Move) (p q : Pool) (all : ℕ) → Accounts p all → move m p ≡ some q → Moved p all q
unfolding move
move-Accounts start p q all w e = start-Accounts p.queue p q all refl w e
move-Accounts succeed p q all w e = succeed-Accounts p.succeeding p q all refl w e
move-Accounts fail p q all w e = fail-Accounts p.failing p q all refl w e

run_moves-Accounts :
    (moves : List Move) (p q : Pool) (all : ℕ)
    → Accounts p all
    → run_moves moves p ≡ some q
    → (length moves + moves_left q ≡ moves_left p) × Accounts q all
unfolding run_moves
run_moves-Accounts [] p q all w e =
    let same : p ≡ q = ap (pool_or p) e in
    (omega (arith, ap moves_left same), subst (λ r. Accounts r all) same w)
run_moves-Accounts (m ∷ moves) p q all w e = elim (Option-cases (move m p)) [
  | inl f ↦ absurd (ground arith)
  | inr (r, f) ↦
      let (less, w') = move-Accounts m p r all w f in
      let (later, w'') = run_moves-Accounts moves r q all w' (rw f at e) in
      (omega (arith, less, later), w'')
]

new_pool-Accounts :
    (worker_count : ℕ) (tasks : List Bool) → Accounts (new_pool worker_count tasks) (failures tasks)
unfolding new_pool
new_pool-Accounts worker_count tasks = record {
  failed = omega arith;
  room = omega arith;
  some_workers = ground arith;
}

no_failing :
    (tasks : List Bool) (p : Pool)
    → p.queue ≡ tasks
    → has_finished p ≡ true
    → failures p.queue + p.failing ≡ 0
unfolding has_finished
no_failing [] p h e = ground (arith, ap failures h)
no_failing (t ∷ tasks) p h e = absurd (ground (arith, ap length h))

-- If more tasks fail than the channel has room for, no interleaving finishes: `Wait` never returns.
pub run_moves-never_finishes :
    (worker_count : ℕ) (tasks : List Bool) (moves : List Move) (q : Pool)
    → err_channel_buffer < failures tasks
    → run_moves moves (new_pool worker_count tasks) ≡ some q
    → has_finished q ≡ false
run_moves-never_finishes worker_count tasks moves q h e =
    let (left, w) =
      run_moves-Accounts moves (new_pool worker_count tasks) q (failures tasks)
        (new_pool-Accounts worker_count tasks) e in
    elim (Bool-cases (has_finished q)) [
      | inl f ↦ absurd (omega (arith, w.failed, w.room, no_failing q.queue q refl f))
      | inr f ↦ f
    ]

-- A worker whose task fails can send while the channel has room.
can_fail :
    (n : ℕ) (q : Pool)
    → q.failing ≡ suc n
    → q.errors < err_channel_buffer
    → (m : Move) × (r : Pool) × (move m q ≡ some r)
unfolding move fail_from
can_fail n q h e = (fail, record q { failing = n; errors = suc q.errors }, ground arith)

can_succeed :
    (n : ℕ) (q : Pool) → q.succeeding ≡ suc n → (m : Move) × (r : Pool) × (move m q ≡ some r)
unfolding move succeed_from
can_succeed n q h = (succeed, record q { succeeding = n }, ground arith)

can_start :
    (t : Bool) (tasks : List Bool) (q : Pool)
    → q.queue ≡ t ∷ tasks
    → q.succeeding ≡ 0
    → q.failing ≡ 0
    → 0 < q.workers
    → (m : Move) × (r : Pool) × (move m q ≡ some r)
unfolding move start_from
can_start t tasks q h s f w = (start, begin_task t tasks q, ground arith)

progress_from :
    (f s : ℕ) (tasks : List Bool) (q : Pool)
    → q.failing ≡ f
    → q.succeeding ≡ s
    → q.queue ≡ tasks
    → 0 < q.workers
    → (0 < q.failing → q.errors < err_channel_buffer)
    → has_finished q ≡ false
    → (m : Move) × (r : Pool) × (move m q ≡ some r)
unfolding has_finished
progress_from (suc n) s tasks q hf hs hq w room e = can_fail n q hf (room (omega arith))
progress_from zero (suc n) tasks q hf hs hq w room e = can_succeed n q hs
progress_from zero zero (t ∷ tasks) q hf hs hq w room e = can_start t tasks q hq hs hf w
progress_from zero zero [] q hf hs hq w room e = absurd (ground arith)

-- If at most as many tasks fail as the channel has room for, no interleaving gets stuck: a pool that
-- has not finished can move, and the moves that were made and the ones that are left are together
-- two for each task, so that it finishes.
pub run_moves-progress :
    (worker_count : ℕ) (tasks : List Bool) (moves : List Move) (q : Pool)
    → failures tasks ≤ err_channel_buffer
    → run_moves moves (new_pool worker_count tasks) ≡ some q
    → has_finished q ≡ false
    → ((m : Move) × (r : Pool) × (move m q ≡ some r))
      × (length moves + moves_left q ≡ 2 * length tasks)
unfolding new_pool
run_moves-progress worker_count tasks moves q h e open_tasks =
    let (left, w) =
      run_moves-Accounts moves (new_pool worker_count tasks) q (failures tasks)
        (new_pool-Accounts worker_count tasks) e in
    (
      progress_from q.failing q.succeeding q.queue q refl refl refl w.some_workers
          (λ p. omega (arith, w.failed)) open_tasks,
      omega (arith, left),
    )
