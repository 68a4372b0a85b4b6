-- ===== src/DiskStore/Invariant.antt =====
-- The row counter against the rows of the active file.
use cloudzero_agent.Base.{
  ℕ, ◌+◌, ◌≤◌, ◌<◌, true, Option, none, some, List, [], ◌∷◌, ◌++◌, length, length-append,
  Bool-cases, inl, inr, leb, eqb, ◌≡◌, refl, arith,
}
use cloudzero_agent.Metric.Defs.{Metric}
use cloudzero_agent.DiskStore.Defs.{
  Op, Env, StoreError, DiskStore, Call, put_call, flush_call, new_file_writer, flush_writer_of,
  flush_unlocked, rotate, flush, encode, append_rows, put_from, put, new_disk_store, call, run,
  rows_of, then_new_file, then_append,
}

abbrev pub CountFits : Option (List Metric) → ℕ → Type 0
CountFits none n = n ≡ 0
CountFits (some rows) n = n ≤ length rows

-- `IsCounted d`: the counter is 0 without an active file, and never counts rows that are not in it;
-- the limit is not 0, and it was not reached.
pub record IsCounted (d : DiskStore) : Type 0 where
  pub fits : CountFits d.writer d.row_count
  pub limit : 0 < d.row_limit
  pub below : d.row_count < d.row_limit

module _ (env : Env) where
  length-encode-le :
      (ms : List Metric) → (encode env ms).1 ≡ true → length ms ≤ length (encode env ms).0
  unfolding encode
  length-encode-le [] h = omega arith
  length-encode-le (m ∷ ms) h = ground (arith, length-encode-le ms)

  new_file_writer-IsCounted :
      (d : DiskStore)
      → 0 < d.row_limit
      → CountFits d.writer d.row_count
      → d.row_count < d.row_limit
      → IsCounted (new_file_writer env d).1
  unfolding new_file_writer
  new_file_writer-IsCounted d h f b = elim (Bool-cases (env.fails Op.create d.ops)) [
    | inl e ↦ rw e (record { fits = f; limit = h; below = b })
    | inr e ↦ rw e (record { fits = omega arith; limit = h; below = h })
  ]

  -- After `flushUnlocked` there is no active file, whether it failed or not.
  flush_writer_of-closed :
      (w : Option (List Metric)) (d : DiskStore)
      → d.writer ≡ w
      → CountFits w d.row_count
      → ((flush_writer_of env w d).1.writer ≡ none)
        × ((flush_writer_of env w d).1.row_count ≡ 0)
        × ((flush_writer_of env w d).1.row_limit ≡ d.row_limit)
  unfolding flush_writer_of
  flush_writer_of-closed none d e h = (e, h, refl)
  flush_writer_of-closed (some rows) d e h = ground arith

  then_new_file-IsCounted :
      (r : Option StoreError × DiskStore)
      → r.1.writer ≡ none
      → r.1.row_count ≡ 0
      → 0 < r.1.row_limit
      → IsCounted (then_new_file env r).1
  then_new_file-IsCounted (some e, d) w c h = record {
    fits = rw w c;
    limit = h;
    below = omega arith;
  }
  then_new_file-IsCounted (none, d) w c h = new_file_writer-IsCounted d h (rw w c) (omega arith)

  rotate-IsCounted :
      (d : DiskStore)
      → CountFits d.writer d.row_count
      → 0 < d.row_limit
      → IsCounted (rotate env d).1
  unfolding rotate flush_unlocked
  rotate-IsCounted d f h =
      let (w, c, l) = flush_writer_of-closed d.writer d refl f in
      then_new_file-IsCounted (flush_writer_of env d.writer d) w c (omega arith)

  flush-IsCounted : (d : DiskStore) → IsCounted d → IsCounted (flush env d).1
  unfolding flush
  flush-IsCounted d w = elim (Bool-cases (eqb d.row_count 0)) [
    | inl e ↦ rw e w
    | inr e ↦ rw e (rotate-IsCounted d w.fits w.limit)
  ]

  CountFits-rows_of :
      (w : Option (List Metric)) (n : ℕ) → CountFits w n → n ≤ length (rows_of env w)
  CountFits-rows_of none n h = omega arith
  CountFits-rows_of (some rows) n h = h

  append_rows-IsCounted :
      (d : DiskStore) (ms : List Metric) → IsCounted d → IsCounted (append_rows env d ms).1
  unfolding append_rows
  append_rows-IsCounted d ms w =
      let rows = (encode env ms).0 in
      let kept = CountFits-rows_of d.writer d.row_count w.fits in
      let more = length-append (rows_of env d.writer) rows in
      elim (Bool-cases (encode env ms).1) [
        | inl e ↦
            let fits : d.row_count + length ms ≤ length (rows_of env d.writer ++ rows) =
              omega (arith, length-encode-le ms e) in
            elim (Bool-cases (leb d.row_limit (d.row_count + length ms))) [
              | inl f ↦ rw (e, f) (rotate-IsCounted _ fits w.limit)
              | inr f ↦ rw (e, f) (record { fits = fits; limit = w.limit; below = ground arith })
            ]
        | inr e ↦ rw e (record { fits = omega arith; limit = w.limit; below = w.below })
      ]

  then_append-IsCounted :
      (r : Option StoreError × DiskStore) (ms : List Metric)
      → IsCounted r.1
      → IsCounted (then_append env r ms).1
  then_append-IsCounted (some e, d) ms w = w
  then_append-IsCounted (none, d) ms w = append_rows-IsCounted d ms w

  put_from-IsCounted :
      (o : Option (List Metric)) (d : DiskStore) (ms : List Metric)
      → IsCounted d
      → IsCounted (put_from env o d ms).1
  unfolding put_from
  put_from-IsCounted none d ms w =
      then_append-IsCounted (new_file_writer env d) ms
        (new_file_writer-IsCounted d w.limit w.fits w.below)
  put_from-IsCounted (some rows) d ms w = append_rows-IsCounted d ms w

  put-IsCounted : (d : DiskStore) (ms : List Metric) → IsCounted d → IsCounted (put env d ms).1
  unfolding put
  put-IsCounted d ms w = put_from-IsCounted d.writer d ms w

  call-IsCounted : (d : DiskStore) (c : Call) → IsCounted d → IsCounted (call env d c).1
  unfolding call
  call-IsCounted d (put_call ms) w = put-IsCounted d ms w
  call-IsCounted d flush_call w = flush-IsCounted d w

  run-IsCounted : (d : DiskStore) (calls : List Call) → IsCounted d → IsCounted (run env d calls)
  unfolding run
  run-IsCounted d [] w = w
  run-IsCounted d (c ∷ calls) w = run-IsCounted (call env d c).1 calls (call-IsCounted d c w)

  new_disk_store-IsCounted : (max_records : ℕ) → IsCounted (new_disk_store env max_records).1
  unfolding new_disk_store
  new_disk_store-IsCounted max_records =
      new_file_writer-IsCounted _ (ground arith) refl (ground arith)

  -- After any calls of `Put` and `Flush` on a new store, and whatever failed in them, the row
  -- counter is below the limit and at most the number of rows in the active file; it is 0 where
  -- there is no active file.
  pub new_disk_store-run-IsCounted :
      (max_records : ℕ) (calls : List Call)
      → IsCounted (run env (new_disk_store env max_records).1 calls)
  new_disk_store-run-IsCounted max_records calls =
      run-IsCounted (new_disk_store env max_records).1 calls (new_disk_store-IsCounted max_records)
