-- ===== src/Tests/Parallel.antt =====
-- A chunk of files of which all but one fail to upload, and a small one.
use cloudzero_agent.Base.{
  ℕ, zero, suc, ◌+◌, Bool, true, false, some, List, [], ◌∷◌, ◌≡◌, refl, arith,
}
use cloudzero_agent.Parallel.Defs.{
  Pool, Move, start, fail, new_pool, start_from, succeed_from, fail_from, move, run_moves,
  has_finished,
}
use cloudzero_agent.Parallel.Progress.{moves_left, run_moves-never_finishes, run_moves-progress}

program : Unit {0}
unfolding run_moves move start_from succeed_from fail_from new_pool has_finished
program = tt

abbrev failing_tasks : ℕ → List Bool
failing_tasks zero = []
failing_tasks (suc n) = true ∷ failing_tasks n

abbrev one_sent : Pool
one_sent = record {
  workers = 3;
  queue = failing_tasks 100;
  succeeding = 1;
  failing = 0;
  errors = 1;
}

one_sent_reached :
    run_moves (start ∷ start ∷ fail ∷ []) (new_pool 3 (true ∷ false ∷ failing_tasks 100))
    ≡ some one_sent
unfolding program
one_sent_reached = refl

run_moves-never_finishes_example : has_finished one_sent ≡ false
run_moves-never_finishes_example =
    run_moves-never_finishes 3 (true ∷ false ∷ failing_tasks 100) (start ∷ start ∷ fail ∷ [])
      one_sent (omega arith) one_sent_reached

abbrev both_started : Pool
both_started = record { workers = 2; queue = []; succeeding = 1; failing = 1; errors = 0 }

both_started_reached :
    run_moves (start ∷ start ∷ []) (new_pool 1 (true ∷ false ∷ [])) ≡ some both_started
unfolding program
both_started_reached = refl

both_started_open : has_finished both_started ≡ false
unfolding program
both_started_open = refl

run_moves-progress_example :
    ((m : Move) × (r : Pool) × (move m both_started ≡ some r)) × (2 + moves_left both_started ≡ 4)
run_moves-progress_example =
    run_moves-progress 1 (true ∷ false ∷ []) (start ∷ start ∷ []) both_started (omega arith)
      both_started_reached both_started_open
