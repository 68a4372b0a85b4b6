-- ===== src/Shipper/Disk/Pressure.antt =====
-- The pressure levels against the thresholds, and the percentages of the cleanup.
use cloudzero_agent.Base.{
  ℕ, ◌≤◌, Bool, true, false, Option, none, some, List, leb, Result, ok, err, Bool-cases, inl, inr,
  ◌≡◌, ◌≢◌, refl, arith,
}
use cloudzero_agent.Shipper.Disk.{
  UploadedFile, PressureLevel, pressure_none, pressure_low, pressure_medium, pressure_high,
  pressure_critical, rank, CleanupError, invalid_percentage, CleanupResult, Host, is_memory_backed,
  get_thresholds, calculate_pressure_level, get_cleanup_percentage, purge_files_before,
  purge_oldest_percentage, second_strategy, execute_cleanup_strategy, manage_from,
  manage_disk_usage, final_check, after_first, drop_result,
}

module _ {Usage : Type 0} (host : Host Usage) where
  -- Whether a measurement reaches the threshold of a level; every measurement reaches the lowest one.
  abbrev pub reaches_level : Usage → PressureLevel → Bool
  reaches_level usage pressure_none = true
  reaches_level usage pressure_low =
      host.reaches usage (get_thresholds host (is_memory_backed host)).low
  reaches_level usage pressure_medium =
      host.reaches usage (get_thresholds host (is_memory_backed host)).medium
  reaches_level usage pressure_high =
      host.reaches usage (get_thresholds host (is_memory_backed host)).high
  reaches_level usage pressure_critical =
      host.reaches usage (get_thresholds host (is_memory_backed host)).critical

  -- The thresholds decrease with the level.
  decreasing :
      (is_memory : Bool)
      → ((get_thresholds host is_memory).high ≤ (get_thresholds host is_memory).critical)
        × ((get_thresholds host is_memory).medium ≤ (get_thresholds host is_memory).high)
        × ((get_thresholds host is_memory).low ≤ (get_thresholds host is_memory).medium)
  decreasing true = (omega arith, omega arith, omega arith)
  decreasing false = (omega arith, omega arith, omega arith)

  -- If a measurement that reaches a number reaches every smaller number, the level that is computed is
  -- at least some level exactly when the measurement reaches the threshold of that level.
  pub calculate_pressure_level_lem :
      (usage : Usage) (level : PressureLevel)
      → ((a b : ℕ) → b ≤ a → host.reaches usage a ≡ true → host.reaches usage b ≡ true)
      → leb (rank level) (rank (calculate_pressure_level host usage)) ≡ reaches_level usage level
  unfolding calculate_pressure_level
  calculate_pressure_level_lem usage level down =
      let t = get_thresholds host (is_memory_backed host) in
      let (h, m, l) = decreasing (is_memory_backed host) in
      ground (arith, down t.critical t.high h, down t.high t.medium m, down t.medium t.low l)

  abbrev is_in_range {ℓ} : {A : Type ℓ} → Result CleanupError A → Bool
  is_in_range (err invalid_percentage) = false
  is_in_range _ = true

  get_cleanup_percentage-le : (level : PressureLevel) → get_cleanup_percentage host level ≤ 100
  unfolding get_cleanup_percentage
  get_cleanup_percentage-le level = ground arith

  purge_oldest_percentage_in_range :
      (percent : ℕ) (files : List UploadedFile)
      → percent ≤ 100
      → is_in_range (purge_oldest_percentage host percent files).0 ≡ true
  unfolding purge_oldest_percentage
  purge_oldest_percentage_in_range percent files h = ground arith

  purge_files_before_in_range :
      (before : ℕ) (files : List UploadedFile)
      → is_in_range (purge_files_before host before files).0 ≡ true
  unfolding purge_files_before
  purge_files_before_in_range before files = ground arith

  final_check_in_range :
      (initial : PressureLevel) (removed : ℕ) (r : Result CleanupError ℕ × List UploadedFile)
      (usage : Option Usage)
      → is_in_range r.0 ≡ true
      → is_in_range (final_check host initial removed r usage).0 ≡ true
  final_check_in_range initial removed (err e, files) usage h = ground arith
  final_check_in_range initial removed (ok n, files) none h = refl
  final_check_in_range initial removed (ok n, files) (some usage) h = refl

  second_strategy_in_range :
      (initial : PressureLevel) (removed : ℕ) (files : List UploadedFile) (current : PressureLevel)
      → is_in_range (second_strategy host initial removed files current).0 ≡ true
  unfolding second_strategy
  second_strategy_in_range initial removed files current =
      let percent = get_cleanup_percentage host current in
      let purged = purge_oldest_percentage host percent files in
      ground (
        arith,
        final_check_in_range initial removed purged (host.get_usage 2)
            (purge_oldest_percentage_in_range percent files (get_cleanup_percentage-le current)),
      )

  after_first_in_range :
      (initial : PressureLevel) (r : Result CleanupError ℕ × List UploadedFile)
      (usage : Option Usage)
      → is_in_range r.0 ≡ true
      → is_in_range (after_first host initial r usage).0 ≡ true
  after_first_in_range initial (err e, files) usage h = ground arith
  after_first_in_range initial (ok n, files) none h = refl
  after_first_in_range initial (ok n, files) (some usage) h =
      second_strategy_in_range initial n files (calculate_pressure_level host usage)

  execute_cleanup_strategy_in_range :
      (initial : PressureLevel) (cutoff : ℕ) (files : List UploadedFile)
      → is_in_range (execute_cleanup_strategy host initial cutoff files).0 ≡ true
  unfolding execute_cleanup_strategy
  execute_cleanup_strategy_in_range initial cutoff files =
      elim (Bool-cases (leb (rank pressure_medium) (rank initial))) [
        | inl e ↦ rw e (
            after_first_in_range initial (purge_files_before host cutoff files) (host.get_usage 1)
              (purge_files_before_in_range cutoff files))
        | inr e ↦ rw e (after_first_in_range initial (ok 0, files) (host.get_usage 1) refl)
      ]

  drop_result_in_range :
      (r : Result CleanupError CleanupResult × List UploadedFile)
      → is_in_range r.0 ≡ true
      → (drop_result host r).0 ≢ some invalid_percentage
  drop_result_in_range (err e, files) h = ground arith
  drop_result_in_range (ok x, files) h = ground arith

  manage_from_in_range :
      (usage : Option Usage) (cutoff : ℕ) (files : List UploadedFile)
      → (manage_from host usage cutoff files).0 ≢ some invalid_percentage
  unfolding manage_from
  manage_from_in_range none cutoff files = ground arith
  manage_from_in_range (some usage) cutoff files =
      let pressure = calculate_pressure_level host usage in
      elim (Bool-cases (leb (rank pressure) (rank pressure_low))) [
        | inl e ↦ rw e (ground arith)
        | inr e ↦ rw e (
            drop_result_in_range (execute_cleanup_strategy host pressure cutoff files)
              (execute_cleanup_strategy_in_range pressure cutoff files))
      ]

  -- Whatever the host answers, a cycle of the disk manager never fails because of a percentage that
  -- is out of range.
  pub manage_disk_usage_in_range :
      (cutoff : ℕ) (files : List UploadedFile)
      → (manage_disk_usage host cutoff files).0 ≢ some invalid_percentage
  unfolding manage_disk_usage
  manage_disk_usage_in_range cutoff files = manage_from_in_range (host.get_usage 0) cutoff files
