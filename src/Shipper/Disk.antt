-- ===== src/Shipper/Disk.antt =====
-- app/domain/shipper/disk.go: `DiskManager`. The state is the directory of uploaded files, in the
-- order of a walk; prometheus metrics and logging are left out.
pub mod Laws
pub mod Pressure
use cloudzero_agent.Base.{
  ℕ, zero, suc, ◌+◌, ◌*◌, ◌/◌, String, Bool, true, false, not, ◌&&◌, Option, none, some, List, [],
  ◌∷◌, map, take, length, select, ltb, leb, eqb, if◌then◌else◌, ◌==◌, Result, ok, err,
}

pub record UploadedFile : Type 0 where
  pub path : String
  pub mod_time : ℕ

pub data PressureLevel : Type 0 where
  pressure_none pressure_low pressure_medium pressure_high pressure_critical : PressureLevel

-- The numbers that `iota` gives to the levels; `>=` compares them.
abbrev pub rank : PressureLevel → ℕ
rank pressure_none = 0
rank pressure_low = 1
rank pressure_medium = 2
rank pressure_high = 3
rank pressure_critical = 4

pub record PressureThresholds : Type 0 where
  pub critical : ℕ
  pub high : ℕ
  pub medium : ℕ
  pub low : ℕ

pub data CleanupError : Type 0 where
  usage_failed walk_failed invalid_percentage : CleanupError

pub record CleanupResult : Type 0 where
  pub files_removed : ℕ
  pub pressure_before : PressureLevel
  pub pressure_after : PressureLevel

-- What one cycle finds: the n-th measurement of the store, whether the n-th walk over the directory
-- fails, whether a file can be removed, the answers of the two tests for tmpfs, and `sort.Slice` by
-- time. A measured percentage is a float64, compared with whole numbers.
pub record Host (Usage : Type 0) : Type 0 where
  pub get_usage : ℕ → Option Usage
  pub reaches : Usage → ℕ → Bool
  pub walk_fails : ℕ → Bool
  pub can_remove : String → Bool
  pub filesystem_type : Option Bool
  pub proc_mounts : Option Bool
  pub sort : List UploadedFile → List UploadedFile

-- The loops over `os.Remove`: the number of removed files and what is left.
unfoldable pub remove_files :
    (String → Bool) → List String → List UploadedFile → ℕ × List UploadedFile
remove_files can_remove [] files = (0, files)
remove_files can_remove (p ∷ paths) files =
    let (removed, kept) =
      remove_files can_remove paths
        (if can_remove p then select (λ f. not (f.path == p)) files else files) in
    ((if can_remove p then suc removed else removed), kept)

-- How many files `PurgeOldestPercentage` removes.
unfoldable pub num_to_remove : ℕ → ℕ → ℕ
num_to_remove n percent = let m = n * percent / 100 in if eqb m 0 && ltb 0 percent then 1 else m

abbrev pub paths_of : List UploadedFile → List String
paths_of = map (λ (f : UploadedFile). f.path)

module _ {Usage : Type 0} (host : Host Usage) where
  open host use {get_usage, reaches, walk_fails, can_remove, filesystem_type, proc_mounts, sort}

  unfoldable pub is_memory_backed : Bool
  is_memory_backed = elim filesystem_type [
    | some is_memory ↦ is_memory
    | none ↦ elim proc_mounts [ some is_memory ↦ is_memory | none ↦ false ]
  ]

  abbrev pub get_thresholds : Bool → PressureThresholds
  get_thresholds true = record { critical = 80; high = 60; medium = 40; low = 20 }
  get_thresholds false = record { critical = 95; high = 85; medium = 70; low = 50 }

  unfoldable pub calculate_pressure_level : Usage → PressureLevel
  calculate_pressure_level usage =
      let thresholds = get_thresholds is_memory_backed in
      if reaches usage thresholds.critical
      then pressure_critical
      else if reaches usage thresholds.high
      then pressure_high
      else if reaches usage thresholds.medium
      then pressure_medium
      else if reaches usage thresholds.low
      then pressure_low
      else pressure_none

  unfoldable pub get_cleanup_percentage : PressureLevel → ℕ
  get_cleanup_percentage pressure_critical = if is_memory_backed then 70 else 50
  get_cleanup_percentage pressure_high = if is_memory_backed then 50 else 25
  get_cleanup_percentage _ = if is_memory_backed then 30 else 10

  -- The walk is the first of a cycle.
  unfoldable pub purge_files_before :
      ℕ → List UploadedFile → Result CleanupError ℕ × List UploadedFile
  purge_files_before before files =
      if walk_fails 0
      then (err walk_failed, files)
      else (let (removed, kept) =
            remove_files can_remove (paths_of (select (λ f. ltb f.mod_time before) files)) files in
          (ok removed, kept))

  -- The walk is the second of a cycle; a negative percentage, which no caller passes, is not a number
  -- here.
  unfoldable pub purge_oldest_percentage :
      ℕ → List UploadedFile → Result CleanupError ℕ × List UploadedFile
  purge_oldest_percentage percent files =
      if ltb 100 percent
      then (err invalid_percentage, files)
      else if walk_fails 1
      then (err walk_failed, files)
      else if eqb (length files) 0
      then (ok 0, files)
      else (let (removed, kept) =
            remove_files can_remove
              (paths_of (take (num_to_remove (length files) percent) (sort files))) files in
          (ok removed, kept))

  -- From the second strategy on, with what the first one removed.
  abbrev pub final_check :
      PressureLevel
      → ℕ
      → Result CleanupError ℕ × List UploadedFile
      → Option Usage
      → Result CleanupError CleanupResult × List UploadedFile
  final_check initial removed (err e, files) usage = (err e, files)
  final_check initial removed (ok n, files) none = (err usage_failed, files)
  final_check initial removed (ok n, files) (some usage) = (
    ok (record {
      files_removed = removed + n;
      pressure_before = initial;
      pressure_after = calculate_pressure_level usage;
    }),
    files,
  )

  unfoldable pub second_strategy :
      PressureLevel
      → ℕ
      → List UploadedFile
      → PressureLevel
      → Result CleanupError CleanupResult × List UploadedFile
  second_strategy initial removed files current =
      if leb (rank pressure_high) (rank current)
      then final_check initial removed
          (purge_oldest_percentage (get_cleanup_percentage current) files) (get_usage 2)
      else (
        ok (record {
          files_removed = removed;
          pressure_before = initial;
          pressure_after = current;
        }),
        files,
      )

  abbrev pub after_first :
      PressureLevel
      → Result CleanupError ℕ × List UploadedFile
      → Option Usage
      → Result CleanupError CleanupResult × List UploadedFile
  after_first initial (err e, files) usage = (err e, files)
  after_first initial (ok removed, files) none = (err usage_failed, files)
  after_first initial (ok removed, files) (some usage) =
      second_strategy initial removed files (calculate_pressure_level usage)

  unfoldable pub execute_cleanup_strategy :
      PressureLevel → ℕ → List UploadedFile → Result CleanupError CleanupResult × List UploadedFile
  execute_cleanup_strategy initial cutoff files =
      after_first initial
        (if leb (rank pressure_medium) (rank initial)
          then purge_files_before cutoff files
          else (ok 0, files))
        (get_usage 1)

  abbrev pub drop_result :
      Result CleanupError CleanupResult × List UploadedFile
      → Option CleanupError × List UploadedFile
  drop_result (err e, files) = (some e, files)
  drop_result (ok r, files) = (none, files)

  unfoldable pub manage_from :
      Option Usage → ℕ → List UploadedFile → Option CleanupError × List UploadedFile
  manage_from none cutoff files = (some usage_failed, files)
  manage_from (some usage) cutoff files =
      let pressure = calculate_pressure_level usage in
      if leb (rank pressure) (rank pressure_low)
      then (none, files)
      else drop_result (execute_cleanup_strategy pressure cutoff files)

  unfoldable pub manage_disk_usage : ℕ → List UploadedFile → Option CleanupError × List UploadedFile
  manage_disk_usage cutoff files = manage_from (get_usage 0) cutoff files
