-- ===== src/Tests/DiskStore.antt =====
-- A store with two rows in a file, on a clock that gains a millisecond with each reading.
use cloudzero_agent.Base.{ℕ, ◌+◌, Bool, true, false, none, some, List, [], ◌∷◌, ◌≡◌, refl, arith}
use cloudzero_agent.DiskStore.Defs.{
  Op, Env, Call, put_call, flush_call, rename, failed, new_disk_store, call, run, put, flush,
  append_rows, new_file_writer, encode, rotate, flush_unlocked, rename_to,
}
use cloudzero_agent.DiskStore.Invariant.{IsCounted, new_disk_store-run-IsCounted}
use cloudzero_agent.Collector.Put.Rows.{KeepsRows}
use cloudzero_agent.DiskStore.Interface.{disk_store, disk_store-KeepsRows}
use cloudzero_agent.DiskStore.Rows.{
  IsSpaced, IsReady, contents, succeeds, metrics_put, new_disk_store-contents,
}
use cloudzero_agent.Tests.Metric.{cpu}

program : Unit {0}
unfolding run call put flush new_disk_store new_file_writer append_rows encode rotate flush_unlocked
    rename_to succeeds
program = tt

abbrev good : Env
good = record { milli = λ n. 100 + n; fails = λ op n. false; encodes = λ m. true }

abbrev fails_rename : Op → ℕ → Bool
fails_rename rename n = true
fails_rename _ n = false

abbrev bad : Env
bad = record good { fails = fails_rename }

abbrev calls : List Call
calls =
    put_call (cpu ∷ [])
    ∷ put_call (cpu ∷ cpu ∷ [])
    ∷ put_call (cpu ∷ [])
    ∷ flush_call
    ∷ put_call (cpu ∷ [])
    ∷ []

-- Three rows and one row in finished files, and one row in the active one.
calls_files :
    (run good (new_disk_store good 2).1 calls).files
    ≡ record { start_time = 101; stop_time = 102; rows = cpu ∷ cpu ∷ cpu ∷ [] }
      ∷ record { start_time = 104; stop_time = 105; rows = cpu ∷ [] }
      ∷ []
unfolding program
calls_files = refl

-- A failed rename gives the rows up, and the next `Put` starts a new file.
rename_fails : (call bad (new_disk_store bad 1).1 (put_call (cpu ∷ []))).0 ≡ some (failed rename)
unfolding program
rename_fails = refl

new_disk_store-run-IsCounted_example : IsCounted (run bad (new_disk_store bad 2).1 calls)
new_disk_store-run-IsCounted_example = new_disk_store-run-IsCounted bad 2 calls

created : (new_disk_store good 2).0 ≡ none
unfolding program
created = refl

calls_succeed : succeeds good (new_disk_store good 2).1 calls ≡ true
unfolding program
calls_succeed = refl

good-IsSpaced : IsSpaced good
good-IsSpaced = record { in_order = λ n. omega arith; stays_open = λ n h. omega arith }

-- Two files that are started and stopped in the same millisecond have one name, and the second
-- replaces the first: both rows were put without an error, and one of them is lost.
abbrev stuck : Env
stuck = record good { milli = λ n. 100 }

two_files_succeed :
    succeeds stuck (new_disk_store stuck 1).1 (put_call (cpu ∷ []) ∷ put_call (cpu ∷ []) ∷ [])
    ≡ true
unfolding program
two_files_succeed = refl

stuck_files :
    (run stuck (new_disk_store stuck 1).1 (put_call (cpu ∷ []) ∷ put_call (cpu ∷ []) ∷ [])).files
    ≡ record { start_time = 100; stop_time = 100; rows = cpu ∷ [] } ∷ []
unfolding program
stuck_files = refl

new_disk_store-contents_example :
    contents good (run good (new_disk_store good 2).1 calls) ≡ metrics_put calls
new_disk_store-contents_example =
    new_disk_store-contents good good-IsSpaced 2 calls created calls_succeed

disk_store-KeepsRows_example : KeepsRows (disk_store good) (contents good) (IsReady good)
disk_store-KeepsRows_example = disk_store-KeepsRows good good-IsSpaced
