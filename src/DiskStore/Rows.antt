-- ===== src/DiskStore/Rows.antt =====
-- The rows in the finished files and in the active one, against the metrics that were put.
use mathlib.Core.List.{append-nil, append_assoc}
use cloudzero_agent.Base.{
  ℕ, suc, ◌+◌, ◌≤◌, ◌<◌, ◌%◌, Bool, true, ◌&&◌, Option, none, some, List, [], ◌∷◌, ◌++◌, length,
  is_some, not, Bool-cases, inl, inr, leb, eqb, eqb_iff, ◌≡◌, refl, arith, All, All-append, All-map,
  ap, sym, ◌∙◌,
}
use cloudzero_agent.Metric.Defs.{Metric}
use cloudzero_agent.DiskStore.Defs.{
  Op, Env, StoreError, DiskStore, File, Call, put_call, flush_call, new_file_writer, close_steps,
  rename_to, flush_writer_of, flush_unlocked, rotate, flush, encode, append_rows, put_from, put,
  new_disk_store, call, run, rows_of, then_new_file,
}

-- The rows of finished files, in the order in which they were finished.
pub file_rows : List File → List Metric
file_rows [] = []
file_rows (f ∷ files) = f.rows ++ file_rows files

-- The metrics of the calls of `Put`.
pub metrics_put : List Call → List Metric
metrics_put [] = []
metrics_put (put_call ms ∷ calls) = ms ++ metrics_put calls
metrics_put (flush_call ∷ calls) = metrics_put calls

file_rows-snoc :
    (files : List File) (f : File) → file_rows (files ++ f ∷ []) ≡ file_rows files ++ f.rows
unfolding file_rows
file_rows-snoc [] f = append-nil f.rows
file_rows-snoc (g ∷ files) f =
    ap (λ l. g.rows ++ l) (file_rows-snoc files f)
    ∙ sym (append_assoc g.rows (file_rows files) f.rows)

rename_to-fresh :
    (f : File) (files : List File)
    → f.start_time < f.stop_time
    → All (λ g. g.stop_time ≤ f.start_time) files
    → rename_to f files ≡ files ++ f ∷ []
unfolding rename_to
rename_to-fresh f [] o h = refl
rename_to-fresh f (g ∷ []) o h = ground (arith, eqb_iff g.stop_time f.stop_time)
rename_to-fresh f (g ∷ g' ∷ files) o (h, hs) =
    ground (arith, eqb_iff g.stop_time f.stop_time, rename_to-fresh f (g' ∷ files) o hs)

module _ (env : Env) where
  -- All rows that a store holds, finished files first.
  pub contents : DiskStore → List Metric
  contents d = file_rows d.files ++ rows_of env d.writer

  -- Whether all of the calls return no error.
  unfoldable pub succeeds : DiskStore → List Call → Bool
  succeeds d [] = true
  succeeds d (c ∷ calls) = not (is_some (call env d c).0) && succeeds (call env d c).1 calls

-- The clock does not go back, and a file stays open for a millisecond: as long as no call fails, each
-- file takes three readings, for its first name, its start and its stop.
pub record IsSpaced (env : Env) : Type 0 where
  pub in_order : (n : ℕ) → env.milli n ≤ env.milli (suc n)
  pub stays_open : (n : ℕ) → n % 3 ≡ 0 → env.milli (suc n) < env.milli (suc (suc n))

-- A store with an active file that was started after every finished file was stopped, and before now,
-- the next reading being that of its stop.
pub record IsReady (env : Env) (d : DiskStore) : Type 0 where
  active : is_some d.writer ≡ true
  turn : d.readings % 3 ≡ 2
  clock : d.start_time < env.milli d.readings
  older : All (λ g. g.stop_time ≤ d.start_time) d.files

module _ (env : Env) (spaced : IsSpaced env) where
  abbrev finished : List Metric → DiskStore → File
  finished rows d = record {
    start_time = d.start_time;
    stop_time = env.milli d.readings;
    rows = rows;
  }

  close_steps-none :
      (rows : List Metric) (d : DiskStore)
      → (close_steps env rows d).0 ≡ none
      → (close_steps env rows d).1 ≡ record d {
        row_count = 0;
        writer = none;
        files = rename_to (finished rows d) d.files;
        readings = suc d.readings;
        ops = suc (suc (suc (suc d.ops)));
      }
  unfolding close_steps
  close_steps-none rows d e = ground arith

  new_file_writer-IsReady :
      (d : DiskStore)
      → (new_file_writer env d).0 ≡ none
      → d.readings % 3 ≡ 0
      → All (λ g. g.stop_time ≤ env.milli d.readings) d.files
      → IsReady env (new_file_writer env d).1
        × (contents env (new_file_writer env d).1 ≡ file_rows d.files)
  unfolding new_file_writer contents
  new_file_writer-IsReady d e turn k = elim (Bool-cases (env.fails Op.create d.ops)) [
    | inl f ↦ absurd (ground arith)
    | inr f ↦ rw f (
        (
          record {
            active = refl;
            turn = omega arith;
            clock = spaced.stays_open d.readings turn;
            older =
                All-map (λ g. g.stop_time ≤ env.milli d.readings)
                  (λ g. g.stop_time ≤ env.milli (suc d.readings)) d.files
                  (λ g p. omega (arith, spaced.in_order d.readings)) k;
          },
          append-nil (file_rows d.files),
        ))
  ]

  then_new_file-IsReady :
      (r : Option StoreError × DiskStore) (rows : List Metric)
      → (then_new_file env r).0 ≡ none
      → (r.0 ≡ none
          → (r.1.readings % 3 ≡ 0)
            × All (λ g. g.stop_time ≤ env.milli r.1.readings) r.1.files
            × (file_rows r.1.files ≡ rows))
      → IsReady env (then_new_file env r).1 × (contents env (then_new_file env r).1 ≡ rows)
  then_new_file-IsReady (some e, d) rows h k = absurd (ground arith)
  then_new_file-IsReady (none, d) rows h k =
      let (turn, older, same) = k refl in
      let (ready, kept) = new_file_writer-IsReady d h turn older in (ready, kept ∙ same)

  finished-older :
      (rows : List Metric) (d : DiskStore) (now : ℕ)
      → d.start_time < env.milli d.readings
      → env.milli d.readings ≤ now
      → All (λ g. g.stop_time ≤ d.start_time) d.files
      → All (λ g. g.stop_time ≤ now) (rename_to (finished rows d) d.files)
        × (file_rows (rename_to (finished rows d) d.files) ≡ file_rows d.files ++ rows)
  finished-older rows d now opened h older =
      rw (rename_to-fresh (finished rows d) d.files opened older) (
        (
          All-append (λ g. g.stop_time ≤ now) d.files (finished rows d ∷ [])
              (All-map (λ g. g.stop_time ≤ d.start_time) (λ g. g.stop_time ≤ now) d.files
                (λ g p. omega arith) older)
              (h, tt),
          file_rows-snoc d.files (finished rows d),
        ))

  rotate_from-IsReady :
      (w : Option (List Metric)) (d : DiskStore)
      → d.writer ≡ w
      → IsReady env d
      → (then_new_file env (flush_writer_of env w d)).0 ≡ none
      → IsReady env (then_new_file env (flush_writer_of env w d)).1
        × (contents env (then_new_file env (flush_writer_of env w d)).1
            ≡ file_rows d.files ++ rows_of env w)
  unfolding flush_writer_of
  rotate_from-IsReady none d e ready h = absurd (ground (arith, ready.active))
  rotate_from-IsReady (some rows) d e ready h =
      then_new_file-IsReady (close_steps env rows d) (file_rows d.files ++ rows) h λ p.
        let (older, same) =
          finished-older rows d (env.milli (suc d.readings)) ready.clock
            (spaced.in_order d.readings) ready.older in
        rw (close_steps-none rows d p) ((omega (arith, ready.turn), older, same))

  rotate-IsReady :
      (d : DiskStore)
      → IsReady env d
      → (rotate env d).0 ≡ none
      → IsReady env (rotate env d).1 × (contents env (rotate env d).1 ≡ contents env d)
  unfolding rotate flush_unlocked contents
  rotate-IsReady d w e = rotate_from-IsReady d.writer d refl w e

  flush-IsReady :
      (d : DiskStore)
      → IsReady env d
      → (flush env d).0 ≡ none
      → IsReady env (flush env d).1 × (contents env (flush env d).1 ≡ contents env d)
  unfolding flush
  flush-IsReady d w e = elim (Bool-cases (eqb d.row_count 0)) [
    | inl f ↦ rw f ((w, refl))
    | inr f ↦ rw f (rotate-IsReady d w (rw f at e))
  ]

  encode-all : (ms : List Metric) → (encode env ms).1 ≡ true → (encode env ms).0 ≡ ms
  unfolding encode
  encode-all [] h = refl
  encode-all (m ∷ ms) h = ground (arith, encode-all ms)

  append_rows-IsReady :
      (d : DiskStore) (ms : List Metric)
      → IsReady env d
      → (append_rows env d ms).0 ≡ none
      → IsReady env (append_rows env d ms).1
        × (contents env (append_rows env d ms).1 ≡ contents env d ++ ms)
  unfolding append_rows contents
  append_rows-IsReady d ms w e =
      let rows = rows_of env d.writer ++ (encode env ms).0 in
      elim (Bool-cases (encode env ms).1) [
        | inl f ↦
            let same : file_rows d.files ++ rows
                ≡ (file_rows d.files ++ rows_of env d.writer) ++ ms =
              rw (encode-all ms f)
                (sym (append_assoc (file_rows d.files) (rows_of env d.writer) ms)) in
            elim (Bool-cases (leb d.row_limit (d.row_count + length ms))) [
              | inl g ↦
                  let (ready, kept) =
                    rotate-IsReady
                      (record d { writer = some rows; row_count = d.row_count + length ms })
                      (record { active = refl; turn = w.turn; clock = w.clock; older = w.older })
                      (rw (f, g) at e) in
                  rw (f, g) ((ready, kept ∙ same))
              | inr g ↦
                  rw (f, g)
                    ((
                      record { active = refl; turn = w.turn; clock = w.clock; older = w.older },
                      same,
                    ))
            ]
        | inr f ↦ absurd (ground arith)
      ]

  put_from-IsReady :
      (o : Option (List Metric)) (d : DiskStore) (ms : List Metric)
      → d.writer ≡ o
      → IsReady env d
      → (put_from env o d ms).0 ≡ none
      → IsReady env (put_from env o d ms).1
        × (contents env (put_from env o d ms).1 ≡ contents env d ++ ms)
  unfolding put_from
  put_from-IsReady none d ms h w e = absurd (ground (arith, w.active))
  put_from-IsReady (some rows) d ms h w e = append_rows-IsReady d ms w e

  abbrev pub call_metrics : Call → List Metric
  call_metrics (put_call ms) = ms
  call_metrics flush_call = []

  pub call-IsReady :
      (d : DiskStore) (c : Call)
      → IsReady env d
      → (call env d c).0 ≡ none
      → IsReady env (call env d c).1
        × (contents env (call env d c).1 ≡ contents env d ++ call_metrics c)
  unfolding call put
  call-IsReady d (put_call ms) w e = put_from-IsReady d.writer d ms refl w e
  call-IsReady d flush_call w e =
      let (ready, kept) = flush-IsReady d w e in (ready, kept ∙ sym (append-nil (contents env d)))

  metrics_put_cons :
      (c : Call) (calls : List Call) → metrics_put (c ∷ calls) ≡ call_metrics c ++ metrics_put calls
  unfolding metrics_put
  metrics_put_cons (put_call ms) calls = refl
  metrics_put_cons flush_call calls = refl

  run-contents :
      (d : DiskStore) (calls : List Call)
      → IsReady env d
      → succeeds env d calls ≡ true
      → contents env (run env d calls) ≡ contents env d ++ metrics_put calls
  unfolding run succeeds metrics_put
  run-contents d [] w e = sym (append-nil (contents env d))
  run-contents d (c ∷ calls) w e =
      let first : (call env d c).0 ≡ none = ground arith in
      let (ready, kept) = call-IsReady d c w first in
      run-contents (call env d c).1 calls ready (ground arith)
      ∙ ap (λ l. l ++ metrics_put calls) kept
      ∙ append_assoc (contents env d) (call_metrics c) (metrics_put calls)
      ∙ ap (λ l. contents env d ++ l) (sym (metrics_put_cons c calls))

  -- If a store is created and serves calls of `Put` and `Flush` that all return no error, the clock
  -- does not go back, and at least a millisecond passes between the start and the stop of each file,
  -- then the finished files and the active file together hold exactly the metrics that were put, once
  -- each and in order: no rotation, at the row limit or by `Flush`, loses or repeats a row.
  pub new_disk_store-contents :
      (max_records : ℕ) (calls : List Call)
      → (new_disk_store env max_records).0 ≡ none
      → succeeds env (new_disk_store env max_records).1 calls ≡ true
      → contents env (run env (new_disk_store env max_records).1 calls) ≡ metrics_put calls
  unfolding new_disk_store metrics_put file_rows
  new_disk_store-contents max_records calls e s =
      let (ready, kept) = new_file_writer-IsReady _ e refl tt in
      run-contents _ calls ready s ∙ ap (λ l. l ++ metrics_put calls) kept
