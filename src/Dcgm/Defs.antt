-- ===== src/Dcgm/Defs.antt =====
-- app/domain/transform/dcgm/transformer.go and app/domain/transform/catalog/catalog.go. The buffer
-- maps "namespace/pod/container/gpu" to the two halves of a pair; a nil half is `none`.
use cloudzero_agent.Base.{
  ℕ, suc, String, Bool, true, false, not, Option, none, some, List, [], ◌∷◌, ◌++◌, Result, ok,
  ◌>>=◌, ◌==◌, ◌++ₛ◌, if◌then◌else◌, lookup, insert, all, is_some, has_prefix, trim_prefix,
}
use cloudzero_agent.Metric.Defs.{Metric, Labels}

abbrev pub dcgm_gpu_utilization : String
dcgm_gpu_utilization = "DCGM_FI_DEV_GPU_UTIL"

abbrev pub dcgm_memory_used : String
dcgm_memory_used = "DCGM_FI_DEV_FB_USED"

abbrev pub dcgm_memory_free : String
dcgm_memory_free = "DCGM_FI_DEV_FB_FREE"

abbrev pub standard_gpu_usage : String
standard_gpu_usage = "container_resources_gpu_usage_percent"

abbrev pub standard_gpu_memory_usage : String
standard_gpu_memory_usage = "container_resources_gpu_memory_usage_percent"

abbrev pub required_labels : List String
required_labels = "namespace" ∷ "pod" ∷ "container" ∷ []

pub record MemoryPair : Type 0 where
  pub used : Option Metric
  pub free : Option Metric

-- The transformer, with the number of IDs drawn from `uuid.New` so far.
pub record Transformer : Type 0 where
  pub memory_buffer : List (String × MemoryPair)
  pub uuids : ℕ

abbrev pub new_transformer : Transformer
new_transformer = record { memory_buffer = []; uuids = 0 }

-- `m[k]` on a map of texts: the empty text where the key is missing.
abbrev pub label_or_empty : Option String → String
label_or_empty none = ""
label_or_empty (some v) = v

unfoldable pub label : Metric → String → String
label metric k = label_or_empty (lookup k metric.labels)

unfoldable pub make_memory_key : Metric → String
unfolding label
make_memory_key metric =
    label metric "namespace"
    ++ₛ "/"
    ++ₛ label metric "pod"
    ++ₛ "/"
    ++ₛ label metric "container"
    ++ₛ "/"
    ++ₛ label metric "gpu"

unfoldable pub has_required_labels : Metric → Bool
has_required_labels metric = all (λ l. is_some (lookup l metric.labels)) required_labels

-- One round of the loop of `transformLabels`; `result` is the map that is filled.
unfoldable pub transform_labels_from : Labels → Labels → Labels
transform_labels_from result [] = result
transform_labels_from result ((k, v) ∷ labels) =
    transform_labels_from
      (if k == "UUID"
        then insert "gpu_uuid" (if has_prefix v "GPU-" then trim_prefix v "GPU-" else v) result
        else insert k v result)
      labels

unfoldable pub transform_labels : Labels → Labels
unfolding transform_labels_from
transform_labels labels = transform_labels_from [] labels

-- The node of a metric: its field, else one of two labels.
unfoldable pub node_name_of : Metric → String
unfolding label
node_name_of metric =
    if metric.node_name == ""
    then (if label metric "node" == "" then label metric "Hostname" else label metric "node")
    else metric.node_name

-- `isUsed`: one half of the pair under the metric's key is written.
unfoldable pub set_half : Metric → Bool → Option MemoryPair → MemoryPair
set_half metric true none = record { used = some metric; free = none }
set_half metric false none = record { used = none; free = some metric }
set_half metric true (some pair) = record pair { used = some metric }
set_half metric false (some pair) = record pair { free = some metric }

unfoldable pub buffer_memory_metric : Transformer → Metric → Bool → Transformer
unfolding make_memory_key set_half
buffer_memory_metric t metric is_used =
    let key = make_memory_key metric in
    record t {
      memory_buffer =
          insert key (set_half metric is_used (lookup key t.memory_buffer)) t.memory_buffer;
    }

-- Go's packages uuid and strconv, and the arithmetic of float64: the n-th new ID, `ParseFloat`,
-- `FormatFloat`, `+`, `/`, `*`, the test `== 0`, and the constant 100.
pub record Numbers (F : Type 0) : Type 0 where
  pub new_uuid : ℕ → String
  pub parse_float : String → Option F
  pub format_float : F → String
  pub add : F → F → F
  pub div : F → F → F
  pub mul : F → F → F
  pub is_zero : F → Bool
  pub hundred : F

module _ {F : Type 0} (num : Numbers F) where
  open num use {new_uuid, parse_float, format_float, add, div, mul, is_zero, hundred}

  unfoldable pub transform_gpu_utilization : Transformer → Metric → List Metric × Transformer
  transform_gpu_utilization t metric = (
    record metric {
      id = new_uuid t.uuids;
      metric_name = standard_gpu_usage;
      node_name = node_name_of metric;
      labels = transform_labels metric.labels;
    }
        ∷ [],
    record t { uuids = suc t.uuids },
  )

  unfoldable pub transform_single : Transformer → Metric → List Metric × Transformer
  unfolding transform_gpu_utilization
  transform_single t metric =
      if not (has_prefix metric.metric_name "DCGM_FI_DEV_")
      then (metric ∷ [], t)
      else if not (has_required_labels metric)
      then ([], t)
      else if metric.metric_name == dcgm_gpu_utilization
      then transform_gpu_utilization t metric
      else if metric.metric_name == dcgm_memory_used
      then ([], buffer_memory_metric t metric true)
      else if metric.metric_name == dcgm_memory_free
      then ([], buffer_memory_metric t metric false)
      else (metric ∷ [], t)

  -- The metric of a pair whose two values parse.
  unfoldable pub memory_metric : ℕ → Metric → F → F → List Metric × ℕ
  memory_metric n metric used free = if is_zero (add used free) then ([], n) else (
    record metric {
      id = new_uuid n;
      metric_name = standard_gpu_memory_usage;
      node_name = node_name_of metric;
      value = format_float (mul (div used (add used free)) hundred);
      labels = transform_labels metric.labels;
    }
        ∷ [],
    suc n,
  )

  unfoldable pub parsed_metric : ℕ → Metric → Option F → Option F → List Metric × ℕ
  unfolding memory_metric
  parsed_metric n metric none free = ([], n)
  parsed_metric n metric (some used) none = ([], n)
  parsed_metric n metric (some used) (some free) = memory_metric n metric used free

  -- One round of the loop of `flushMemory`: at most one metric, and the IDs drawn.
  unfoldable pub flush_halves : ℕ → Option Metric → Option Metric → List Metric × ℕ
  unfolding parsed_metric
  flush_halves n none free = ([], n)
  flush_halves n (some used) none = ([], n)
  flush_halves n (some used) (some free) =
      parsed_metric n used (parse_float used.value) (parse_float free.value)

  unfoldable pub flush_from : ℕ → List (String × MemoryPair) → List Metric × ℕ
  unfolding flush_halves
  flush_from n [] = ([], n)
  flush_from n ((key, pair) ∷ buffer) =
      let (flushed, n') = flush_halves n pair.used pair.free in
      let (rest, n'') = flush_from n' buffer in (flushed ++ rest, n'')

  unfoldable pub flush_memory : Transformer → List Metric × Transformer
  unfolding flush_from
  flush_memory t =
      let (result, n) = flush_from t.uuids t.memory_buffer in
      (result, record { memory_buffer = []; uuids = n })

  unfoldable pub transform_from : Transformer → List Metric → List Metric × Transformer
  transform_from t [] = ([], t)
  transform_from t (metric ∷ metrics) =
      let (transformed, t') = transform_single t metric in
      let (rest, t'') = transform_from t' metrics in (transformed ++ rest, t'')

  -- `Transform`; it never returns an error.
  unfoldable pub transform : Transformer → List Metric → List Metric × Transformer
  transform t [] = ([], t)
  transform t (metric ∷ metrics) =
      let (result, t') = transform_from t (metric ∷ metrics) in
      let (flushed, t'') = flush_memory t' in (result ++ flushed, t'')

-- `catalog.Transformer`: each transformer gets what the one before it returned.
unfoldable pub run_catalog {ℓ} :
    {E : Type ℓ}
    → List (List Metric → Result E (List Metric))
    → List Metric
    → Result E (List Metric)
run_catalog [] metrics = ok metrics
run_catalog (t ∷ transformers) metrics = t metrics >>= λ result. run_catalog transformers result
