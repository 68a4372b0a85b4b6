-- ===== src/DiskStore/Defs.antt =====
-- `NewDiskStore`, `Put`, `Flush`, `Pending` and their helpers. The rows of the active file stand for
-- the writer, the compressor and the file; each is nil in the source where `writer` is `none` here.
-- A finished file is known by the two times in its name; renaming onto such a name replaces the file.
use cloudzero_agent.Base.{
  ℕ, suc, ◌+◌, Bool, true, false, ◌&&◌, Option, none, some, List, [], ◌∷◌, ◌++◌, length, leb, eqb,
  if◌then◌else◌,
}
use cloudzero_agent.Metric.Defs.{Metric}

pub data Op : Type 0 where
  create flush_writer close_compressor close_file rename : Op

pub data StoreError : Type 0 where
  failed : Op → StoreError
  marshal recover_writer create_directory : StoreError

-- What the operating system and Go's packages do: the n-th reading of `timestamp.Milli`, whether the
-- n-th operation fails, and whether a metric can be marshalled.
pub record Env : Type 0 where
  pub milli : ℕ → ℕ
  pub fails : Op → ℕ → Bool
  pub encodes : Metric → Bool

pub record File : Type 0 where
  pub start_time : ℕ
  pub stop_time : ℕ
  pub rows : List Metric

-- `readings` counts the readings of the clock, `ops` the other operations.
pub record DiskStore : Type 0 where
  pub row_limit : ℕ
  pub row_count : ℕ
  pub writer : Option (List Metric)
  pub start_time : ℕ
  pub files : List File
  pub readings : ℕ
  pub ops : ℕ

abbrev pub default_database_max_records : ℕ
default_database_max_records = 1500000

-- `os.Rename` onto the name with these two times.
unfoldable pub rename_to : File → List File → List File
rename_to f [] = f ∷ []
rename_to f (g ∷ files) =
    if eqb g.start_time f.start_time && eqb g.stop_time f.stop_time
    then f ∷ files
    else g ∷ rename_to f files

module _ (env : Env) where
  -- The name of the new file takes one reading of the clock, the start time another.
  unfoldable pub new_file_writer : DiskStore → Option StoreError × DiskStore
  new_file_writer d =
      if env.fails create d.ops
      then (some (failed create), record d { readings = suc d.readings; ops = suc d.ops })
      else (
        none,
        record d {
          row_count = 0;
          writer = some [];
          start_time = env.milli (suc d.readings);
          readings = suc (suc d.readings);
          ops = suc d.ops;
        },
      )

  -- The deferred function of `flushUnlocked`: the file is given up.
  abbrev pub abandon : Op → DiskStore → Option StoreError × DiskStore
  abandon op d = (some (failed op), record d { row_count = 0; writer = none })

  abbrev pub after_op : DiskStore → DiskStore
  after_op d = record d { ops = suc d.ops }

  -- From the reading of the stop time on.
  unfoldable pub finish : List Metric → DiskStore → Option StoreError × DiskStore
  finish rows d =
      if env.fails rename d.ops
      then abandon rename (after_op (record d { readings = suc d.readings }))
      else (
        none,
        record d {
          row_count = 0;
          writer = none;
          files =
              rename_to
                (record {
                  start_time = d.start_time;
                  stop_time = env.milli d.readings;
                  rows = rows;
                })
                d.files;
          readings = suc d.readings;
          ops = suc d.ops;
        },
      )

  unfoldable pub close_steps : List Metric → DiskStore → Option StoreError × DiskStore
  unfolding finish
  close_steps rows d =
      let d₁ = after_op d in
      let d₂ = after_op d₁ in
      if env.fails flush_writer d.ops
      then abandon flush_writer d₁
      else if env.fails close_compressor d₁.ops
      then abandon close_compressor d₂
      else if env.fails close_file d₂.ops
      then abandon close_file (after_op d₂)
      else finish rows (after_op d₂)

  unfoldable pub flush_writer_of : Option (List Metric) → DiskStore → Option StoreError × DiskStore
  unfolding close_steps
  flush_writer_of none d = (none, d)
  flush_writer_of (some rows) d = close_steps rows d

  unfoldable pub flush_unlocked : DiskStore → Option StoreError × DiskStore
  unfolding flush_writer_of
  flush_unlocked d = flush_writer_of d.writer d

  -- `flushUnlocked`, then `newFileWriter` if it succeeded.
  abbrev pub then_new_file : Option StoreError × DiskStore → Option StoreError × DiskStore
  then_new_file (some e, d) = (some e, d)
  then_new_file (none, d) = new_file_writer d

  unfoldable pub rotate : DiskStore → Option StoreError × DiskStore
  rotate d = then_new_file (flush_unlocked d)

  unfoldable pub flush : DiskStore → Option StoreError × DiskStore
  flush d = if eqb d.row_count 0 then (none, d) else rotate d

  -- The rows that are written before the first metric that cannot be marshalled, and whether there is
  -- one.
  unfoldable pub encode : List Metric → List Metric × Bool
  encode [] = ([], true)
  encode (m ∷ metrics) =
      let (rows, done) = encode metrics in if env.encodes m then (m ∷ rows, done) else ([], false)

  abbrev pub rows_of : Option (List Metric) → List Metric
  rows_of none = []
  rows_of (some rows) = rows

  -- From the loop over the metrics on.
  unfoldable pub append_rows : DiskStore → List Metric → Option StoreError × DiskStore
  append_rows d metrics =
      let (rows, done) = encode metrics in
      let d₁ = record d { writer = some (rows_of d.writer ++ rows) } in
      if done
      then (let d₂ = record d₁ { row_count = d.row_count + length metrics } in
          if leb d₂.row_limit d₂.row_count then rotate d₂ else (none, d₂))
      else (some marshal, d₁)

  abbrev pub then_append :
      Option StoreError × DiskStore → List Metric → Option StoreError × DiskStore
  then_append (some e, d) metrics = (some recover_writer, d)
  then_append (none, d) metrics = append_rows d metrics

  unfoldable pub put_from :
      Option (List Metric) → DiskStore → List Metric → Option StoreError × DiskStore
  put_from none d metrics = then_append (new_file_writer d) metrics
  put_from (some rows) d metrics = append_rows d metrics

  unfoldable pub put : DiskStore → List Metric → Option StoreError × DiskStore
  unfolding put_from
  put d metrics = put_from d.writer d metrics

  -- `NewDiskStore` up to the first file; a limit of 0 takes the default.
  unfoldable pub new_disk_store : ℕ → Option StoreError × DiskStore
  new_disk_store max_records = new_file_writer (record {
    row_limit = if eqb max_records 0 then default_database_max_records else max_records;
    row_count = 0;
    writer = none;
    start_time = 0;
    files = [];
    readings = 0;
    ops = 0;
  })

pub data Call : Type 0 where
  put_call : List Metric → Call
  flush_call : Call

-- The calls that a store serves; each holds its mutex.
module _ (env : Env) where
  unfoldable pub call : DiskStore → Call → Option StoreError × DiskStore
  call d (put_call metrics) = put env d metrics
  call d flush_call = flush env d

  unfoldable pub run : DiskStore → List Call → DiskStore
  run d [] = d
  run d (c ∷ calls) = run (call d c).1 calls
