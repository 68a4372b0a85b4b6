-- ===== src/Dcgm/Laws.antt =====
-- The names and the number of the metrics that the transformer returns.
use cloudzero_agent.Base.{
  ℕ, suc, ◌+◌, ◌≤◌, String, Bool, true, false, ◌||◌, Option, none, some, List, [], ◌∷◌, ◌==◌,
  eq_iff, lookup, insert, has_prefix, length, length-append, All, All-append, ◌≡◌, refl, ap, arith,
}
use cloudzero_agent.Metric.Defs.{Metric}
use cloudzero_agent.Dcgm.Defs.{
  MemoryPair, Transformer, Numbers, dcgm_gpu_utilization, dcgm_memory_used, dcgm_memory_free,
  make_memory_key, set_half, buffer_memory_metric, transform_single, flush_halves, flush_from,
  flush_memory, transform_from, transform,
}

length-insert {ℓ} :
    {V : Type ℓ} (k : String) (v : V) (m : List (String × V))
    → length (insert k v m) ≤ suc (length m)
unfolding insert
length-insert k v [] = omega arith
length-insert k v ((j, w) ∷ m) = ground (arith, length-insert k v m)

-- A name that the agent does not store: the three raw DCGM metrics.
abbrev pub is_raw : Metric → Bool
is_raw m =
    m.metric_name == dcgm_gpu_utilization
    || m.metric_name == dcgm_memory_used
    || m.metric_name == dcgm_memory_free

abbrev pub NotRaw : Metric → Type 0
NotRaw m = is_raw m ≡ false

-- The three names begin with the prefix.
pub raw_prefix :
    (n s : String)
    → has_prefix n "DCGM_FI_DEV_" ≡ true
    → (s == n) ≡ true
    → has_prefix s "DCGM_FI_DEV_" ≡ true
raw_prefix n s h e = rw ((eq_iff s n).0 e) h

prefix-NotRaw : (m : Metric) → has_prefix m.metric_name "DCGM_FI_DEV_" ≡ false → NotRaw m
unfolding has_prefix
prefix-NotRaw m h = ground (
  arith,
  raw_prefix dcgm_gpu_utilization m.metric_name refl,
  raw_prefix dcgm_memory_used m.metric_name refl,
  raw_prefix dcgm_memory_free m.metric_name refl,
)

module _ {F : Type 0} (num : Numbers F) where
  transform_single-NotRaw : (t : Transformer) (m : Metric) → All NotRaw (transform_single num t m).0
  unfolding transform_single
  transform_single-NotRaw t m = ground (arith, prefix-NotRaw m)

  flush_halves-NotRaw :
      (n : ℕ) (used free : Option Metric) → All NotRaw (flush_halves num n used free).0
  unfolding flush_halves
  flush_halves-NotRaw n none free = tt
  flush_halves-NotRaw n (some used) none = tt
  flush_halves-NotRaw n (some used) (some free) = ground arith

  flush_from-NotRaw :
      (n : ℕ) (buffer : List (String × MemoryPair)) → All NotRaw (flush_from num n buffer).0
  unfolding flush_from
  flush_from-NotRaw n [] = tt
  flush_from-NotRaw n ((key, pair) ∷ buffer) =
      All-append NotRaw (flush_halves num n pair.used pair.free).0 _
        (flush_halves-NotRaw n pair.used pair.free)
        (flush_from-NotRaw (flush_halves num n pair.used pair.free).1 buffer)

  transform_from-NotRaw :
      (t : Transformer) (ms : List Metric) → All NotRaw (transform_from num t ms).0
  unfolding transform_from
  transform_from-NotRaw t [] = tt
  transform_from-NotRaw t (m ∷ ms) =
      All-append NotRaw (transform_single num t m).0 _ (transform_single-NotRaw t m)
        (transform_from-NotRaw (transform_single num t m).1 ms)

  -- Whatever the input, no metric that `Transform` returns has one of the three raw DCGM names: each
  -- of them is replaced by a standard metric, buffered, or dropped.
  pub transform-NotRaw : (t : Transformer) (ms : List Metric) → All NotRaw (transform num t ms).0
  unfolding transform flush_memory
  transform-NotRaw t [] = tt
  transform-NotRaw t (m ∷ ms) =
      let r = transform_from num t (m ∷ ms) in
      All-append NotRaw r.0 _ (transform_from-NotRaw t (m ∷ ms))
        (flush_from-NotRaw r.1.uuids r.1.memory_buffer)

  transform_single-length :
      (t : Transformer) (m : Metric)
      → length (transform_single num t m).0 + length (transform_single num t m).1.memory_buffer
        ≤ suc (length t.memory_buffer)
  unfolding transform_single buffer_memory_metric
  transform_single-length t m = ground (
    arith,
    length-insert (make_memory_key m) (set_half m true (lookup (make_memory_key m) t.memory_buffer))
        t.memory_buffer,
    length-insert (make_memory_key m)
        (set_half m false (lookup (make_memory_key m) t.memory_buffer)) t.memory_buffer,
  )

  transform_from-length :
      (t : Transformer) (ms : List Metric)
      → length (transform_from num t ms).0 + length (transform_from num t ms).1.memory_buffer
        ≤ length ms + length t.memory_buffer
  unfolding transform_from
  transform_from-length t [] = omega arith
  transform_from-length t (m ∷ ms) = omega (
    arith,
    transform_single-length t m,
    transform_from-length (transform_single num t m).1 ms,
    length-append (transform_single num t m).0
        (transform_from num (transform_single num t m).1 ms).0,
  )

  flush_halves-length :
      (n : ℕ) (used free : Option Metric) → length (flush_halves num n used free).0 ≤ 1
  unfolding flush_halves
  flush_halves-length n none free = omega arith
  flush_halves-length n (some used) none = omega arith
  flush_halves-length n (some used) (some free) = ground arith

  flush_from-length :
      (n : ℕ) (buffer : List (String × MemoryPair))
      → length (flush_from num n buffer).0 ≤ length buffer
  unfolding flush_from
  flush_from-length n [] = omega arith
  flush_from-length n ((key, pair) ∷ buffer) =
      let r = flush_halves num n pair.used pair.free in
      omega (
        arith,
        flush_halves-length n pair.used pair.free,
        flush_from-length r.1 buffer,
        length-append r.0 (flush_from num r.1 buffer).0,
      )

  -- From an empty buffer `Transform` returns at most as many metrics as it is given, and leaves the
  -- buffer empty for the next request.
  pub length-transform-le :
      (t : Transformer) (ms : List Metric)
      → t.memory_buffer ≡ []
      → (length (transform num t ms).0 ≤ length ms) × ((transform num t ms).1.memory_buffer ≡ [])
  unfolding transform flush_memory
  length-transform-le t [] e = (omega arith, e)
  length-transform-le t (m ∷ ms) e =
      let r = transform_from num t (m ∷ ms) in
      (
        omega (
          arith,
          ap (length {A = String × MemoryPair}) e,
          transform_from-length t (m ∷ ms),
          flush_from-length r.1.uuids r.1.memory_buffer,
          length-append r.0 (flush_from num r.1.uuids r.1.memory_buffer).0,
        ),
        refl,
      )
