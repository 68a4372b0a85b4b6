-- ===== src/Dcgm/Buffer.antt =====
-- The memory buffer after the metrics of a request, and metrics that are not of DCGM.
use mathlib.Core.List.{append-nil}
use mathlib.Core.Bool.{and-eq-true_iff}
use cloudzero_agent.Dcgm.Laws.{raw_prefix}
use cloudzero_agent.Base.{
  ℕ, String, Bool, true, false, not, ◌&&◌, Option, none, some, List, [], ◌∷◌, ◌++◌, ◌==◌, eq_iff,
  if◌then◌else◌, lookup, lookup-insert, all, has_prefix, Bool-cases, inl, inr, ◌≡◌, refl, ◌∙◌, ap,
  arith,
}
use cloudzero_agent.Metric.Defs.{Metric}
use cloudzero_agent.Dcgm.Defs.{
  MemoryPair, Transformer, Numbers, dcgm_gpu_utilization, dcgm_memory_used, dcgm_memory_free,
  has_required_labels, make_memory_key, set_half, buffer_memory_metric, transform_single,
  flush_memory, transform_from, transform,
}

-- The half of a pair that is in the buffer.
abbrev half_of : Bool → Option MemoryPair → Option Metric
half_of is_used none = none
half_of true (some pair) = pair.used
half_of false (some pair) = pair.free

pub half_at : Bool → String → List (String × MemoryPair) → Option Metric
half_at is_used k buffer = half_of is_used (lookup k buffer)

-- Whether a metric is one half of the pair with a key.
pub is_half : Bool → String → Metric → Bool
is_half is_used k m =
    has_required_labels m
    && m.metric_name == (if is_used then dcgm_memory_used else dcgm_memory_free)
    && make_memory_key m == k

-- The last such metric, or what stood there before.
pub last_half : Bool → String → List Metric → Option Metric → Option Metric
last_half is_used k [] before = before
last_half is_used k (m ∷ ms) before =
    last_half is_used k ms (if is_half is_used k m then some m else before)

abbrev same : Bool → Bool → Bool
same true b = b
same false b = not b

half_at-buffer :
    (is_used : Bool) (t : Transformer) (m : Metric) (is_used' : Bool) (k : String)
    → half_at is_used k (buffer_memory_metric t m is_used').memory_buffer ≡ (
        if make_memory_key m == k
        then half_of is_used
            (some (set_half m is_used' (lookup (make_memory_key m) t.memory_buffer)))
        else half_at is_used k t.memory_buffer)
unfolding half_at buffer_memory_metric
half_at-buffer true t m is_used' k =
    let key = make_memory_key m in
    let half = set_half m is_used' (lookup key t.memory_buffer) in
    ground (arith, lookup-insert key k half t.memory_buffer)
half_at-buffer false t m is_used' k =
    let key = make_memory_key m in
    let half = set_half m is_used' (lookup key t.memory_buffer) in
    ground (arith, lookup-insert key k half t.memory_buffer)

-- The written half is the metric, and the other half stays.
set_half-half_of :
    (m : Metric) (is_used is_used' : Bool) (pair : Option MemoryPair)
    → half_of is_used (some (set_half m is_used' pair))
      ≡ (if same is_used is_used' then some m else half_of is_used pair)
unfolding set_half
set_half-half_of m true true none = refl
set_half-half_of m true true (some p) = refl
set_half-half_of m true false none = refl
set_half-half_of m true false (some p) = refl
set_half-half_of m false true none = refl
set_half-half_of m false true (some p) = refl
set_half-half_of m false false none = refl
set_half-half_of m false false (some p) = refl

names_apart : (s n n' : String) → (n == n') ≡ false → (s == n) ≡ true → (s == n') ≡ false
names_apart s n n' d e = rw ((eq_iff s n).0 e) d

-- Buffering writes the half that is meant, under the metric's key alone.
half_at-buffered :
    (is_used : Bool) (t : Transformer) (m : Metric) (is_used' : Bool) (k : String)
    → half_at is_used k (buffer_memory_metric t m is_used').memory_buffer ≡ (
        if make_memory_key m == k && same is_used is_used'
        then some m
        else half_at is_used k t.memory_buffer)
unfolding half_at
half_at-buffered is_used t m is_used' k = elim (Bool-cases (make_memory_key m == k)) [
  | inl e ↦
      half_at-buffer is_used t m is_used' k
      ∙ rw e (
          set_half-half_of m is_used is_used' (lookup (make_memory_key m) t.memory_buffer)
          ∙ rw ((eq_iff (make_memory_key m) k).0 e) refl)
  | inr e ↦ half_at-buffer is_used t m is_used' k ∙ rw e refl
]

module _ {F : Type 0} (num : Numbers F) where
  half_at-single :
      (is_used : Bool) (k : String) (t : Transformer) (m : Metric)
      → half_at is_used k (transform_single num t m).1.memory_buffer
        ≡ (if is_half is_used k m then some m else half_at is_used k t.memory_buffer)
  unfolding transform_single is_half has_prefix
  half_at-single true k t m = ground (
    arith,
    half_at-buffered true t m true k,
    half_at-buffered true t m false k,
    raw_prefix dcgm_memory_used m.metric_name refl,
    raw_prefix dcgm_memory_free m.metric_name refl,
    names_apart m.metric_name dcgm_gpu_utilization dcgm_memory_used refl,
    names_apart m.metric_name dcgm_gpu_utilization dcgm_memory_free refl,
    names_apart m.metric_name dcgm_memory_used dcgm_memory_free refl,
  )
  half_at-single false k t m = ground (
    arith,
    half_at-buffered false t m true k,
    half_at-buffered false t m false k,
    raw_prefix dcgm_memory_used m.metric_name refl,
    raw_prefix dcgm_memory_free m.metric_name refl,
    names_apart m.metric_name dcgm_gpu_utilization dcgm_memory_used refl,
    names_apart m.metric_name dcgm_gpu_utilization dcgm_memory_free refl,
    names_apart m.metric_name dcgm_memory_used dcgm_memory_free refl,
  )

  -- After the metrics of a request were read, the buffer holds for every key the last used and the
  -- last free memory metric with that key and all required labels, or what it held before.
  pub half_at-transform_from :
      (is_used : Bool) (k : String) (t : Transformer) (ms : List Metric)
      → half_at is_used k (transform_from num t ms).1.memory_buffer
        ≡ last_half is_used k ms (half_at is_used k t.memory_buffer)
  unfolding transform_from last_half
  half_at-transform_from is_used k t [] = refl
  half_at-transform_from is_used k t (m ∷ ms) =
      half_at-transform_from is_used k (transform_single num t m).1 ms
      ∙ ap (last_half is_used k ms) (half_at-single is_used k t m)

  transform_single_other :
      (t : Transformer) (m : Metric)
      → not (has_prefix m.metric_name "DCGM_FI_DEV_") ≡ true
      → transform_single num t m ≡ (m ∷ [], t)
  unfolding transform_single
  transform_single_other t m h = rw h

  transform_from_other :
      (t : Transformer) (ms : List Metric)
      → all (λ m. not (has_prefix m.metric_name "DCGM_FI_DEV_")) ms ≡ true
      → transform_from num t ms ≡ (ms, t)
  unfolding transform_from
  transform_from_other t [] h = refl
  transform_from_other t (m ∷ ms) h =
      let (here, later) = (and-eq-true_iff _ _).0 h in
      let single = transform_single_other t m here in
      ap (λ r. (r.0 ++ (transform_from num r.1 ms).0, (transform_from num r.1 ms).1)) single
      ∙ ap (λ r. (m ∷ r.0, r.1)) (transform_from_other t ms later)

  -- Metrics whose names do not begin with "DCGM_FI_DEV_" pass through unchanged and in order.
  pub transform_other :
      (n : ℕ) (ms : List Metric)
      → all (λ m. not (has_prefix m.metric_name "DCGM_FI_DEV_")) ms ≡ true
      → transform num (record { memory_buffer = []; uuids = n }) ms
        ≡ (ms, record { memory_buffer = []; uuids = n })
  unfolding transform flush_memory
  transform_other n [] h = refl
  transform_other n (m ∷ ms) h =
      rw (transform_from_other (record { memory_buffer = []; uuids = n }) (m ∷ ms) h)
        (simp append-nil)
