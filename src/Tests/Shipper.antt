-- ===== src/Tests/Shipper.antt =====
-- A directory with four uploaded files on a disk that is nine tenths full.
use cloudzero_agent.Base.{
  ℕ, ◌≤◌, String, false, not, ◌&&◌, none, some, List, [], ◌∷◌, leb, select, count_if, All, ok, ◌==◌,
  ◌≡◌, refl, arith,
}
use cloudzero_agent.Shipper.Disk.{
  UploadedFile, Host, calculate_pressure_level, purge_oldest_percentage, purge_files_before,
  num_to_remove, remove_files, paths_of, manage_disk_usage, manage_from, execute_cleanup_strategy,
  second_strategy, get_cleanup_percentage, is_memory_backed,
}
use cloudzero_agent.Shipper.Disk.Laws.{is_among, chosen, others, purge_oldest_percentage-oldest}

abbrev file : String → ℕ → UploadedFile
file path time = record { path = path; mod_time = time }

-- Ordered by time but for the first two.
abbrev files : List UploadedFile
files = file "b" 2 ∷ file "a" 1 ∷ file "c" 3 ∷ file "d" 4 ∷ []

abbrev sort : List UploadedFile → List UploadedFile
sort (f ∷ g ∷ files) = g ∷ f ∷ files
sort files = files

-- A percentage is a whole number here; the file "a" cannot be removed.
abbrev host : Host ℕ
host = record {
  get_usage = λ n. some 90;
  reaches = λ usage n. leb n usage;
  walk_fails = λ n. false;
  can_remove = λ p. not (p == "a");
  filesystem_type = none;
  proc_mounts = none;
  sort = sort;
}

program : Unit {0}
unfolding manage_disk_usage manage_from calculate_pressure_level is_memory_backed
    execute_cleanup_strategy purge_files_before remove_files second_strategy get_cleanup_percentage
    purge_oldest_percentage num_to_remove
program = tt

half_removed :
    purge_oldest_percentage host 50 files ≡ (ok 1, file "a" 1 ∷ file "c" 3 ∷ file "d" 4 ∷ [])
unfolding program
half_removed = refl

cycle : manage_disk_usage host 3 files ≡ (none, file "a" 1 ∷ file "d" 4 ∷ [])
unfolding program
cycle = refl

purge_oldest_percentage-oldest_example :
    ((purge_oldest_percentage host 50 files).1
      ≡ select
          (λ f. not (is_among f.path (paths_of (chosen host 50 files)) && host.can_remove f.path))
          files)
    × ((purge_oldest_percentage host 50 files).0
        ≡ ok (count_if host.can_remove (paths_of (chosen host 50 files))))
    × All
        (λ f. All (λ (g : UploadedFile). f.mod_time ≤ g.mod_time) (others host 50 files))
        (chosen host 50 files)
purge_oldest_percentage-oldest_example =
    purge_oldest_percentage-oldest host 50 files (omega arith) refl
      (
        (omega arith, (omega arith, (omega arith, tt))),
        ((omega arith, (omega arith, tt)), ((omega arith, tt), (tt, tt))),
      )
      refl
