-- ===== src/Collector/Decode.antt =====
-- `DecodeV1` and `DecodeV2` of app/domain/metric_collector.go, from the messages that protobuf parsed.
-- `uuid.New` and the clock are read once for each sample: the n-th call is `new_uuid n` and `now n`.
pub mod Laws
use cloudzero_agent.Base.{
  ℕ, suc, ◌+◌, String, Bool, true, false, Option, none, some, List, [], ◌∷◌, ◌++◌, Result, ok, err,
  ◌>>=◌, ◌==◌, if◌then◌else◌, insert, length,
}
use cloudzero_agent.Metric.Parquet.{of_unix_milli}
use cloudzero_agent.Metric.Defs.{Metric, Labels, import_labels}

-- A sample with its value as text (`formatFloat`) and its time in milliseconds.
pub record Sample : Type 0 where
  pub value : String
  pub timestamp : ℕ

-- `prompb.TimeSeries`
pub record TimeSeriesV1 : Type 0 where
  pub labels : List (String × String)
  pub samples : List Sample

-- `writev2.TimeSeries`: references into the symbols, names and values in turn. Of histograms and
-- exemplars only the numbers are read.
pub record TimeSeriesV2 : Type 0 where
  pub labels_refs : List ℕ
  pub samples : List Sample
  pub histograms : ℕ
  pub exemplars : ℕ

pub record RequestV2 : Type 0 where
  pub symbols : List String
  pub timeseries : List TimeSeriesV2

-- app/domain/write_response_stats.go
pub record WriteResponseStats : Type 0 where
  pub samples : ℕ
  pub histograms : ℕ
  pub exemplars : ℕ
  pub confirmed : Bool

abbrev pub no_stats : WriteResponseStats
no_stats = record { samples = 0; histograms = 0; exemplars = 0; confirmed = false }

-- A failed decoding returns an error; an index out of range panics.
pub data DecodeError : Type 0 where
  invalid_references index_panic : DecodeError

-- The settings that are copied into each metric, and the two sources of fresh values.
pub record Source : Type 0 where
  pub cluster_name : String
  pub cloud_account_id : String
  pub new_uuid : ℕ → String
  -- The time in nanoseconds.
  pub now : ℕ → ℕ

-- The inner loop over the labels: `labelsMap[name] = value`.
unfoldable pub labels_map : Labels → List (String × String) → Labels
labels_map acc [] = acc
labels_map acc ((name, value) ∷ labels) = labels_map (insert name value acc) labels

unfoldable pub get_symbol : List String → ℕ → Option String
get_symbol [] i = none
get_symbol (s ∷ symbols) ℕ.zero = some s
get_symbol (s ∷ symbols) (suc i) = get_symbol symbols i

-- One pair of references: the new map, or the error for an index past the symbols.
unfoldable pub add_reference : Labels → Option String → Option String → Result DecodeError Labels
add_reference acc (some name) (some value) = ok (insert name value acc)
add_reference acc none value = err invalid_references
add_reference acc (some name) none = err invalid_references

-- The loop over the references in steps of two; `LabelsRefs[i+1]` is read before any check.
unfoldable pub decode_references : List String → Labels → List ℕ → Result DecodeError Labels
unfolding get_symbol add_reference
decode_references symbols acc [] = ok acc
decode_references symbols acc (name ∷ []) = err index_panic
decode_references symbols acc (name ∷ value ∷ refs) =
    add_reference acc (get_symbol symbols name) (get_symbol symbols value) >>= λ acc'.
    decode_references symbols acc' refs

module _ (src : Source) where
  unfoldable pub metric_of : ℕ → Labels → Sample → Metric
  unfolding of_unix_milli
  metric_of n labels sample =
      import_labels
        (record {
          id = src.new_uuid n;
          cluster_name = src.cluster_name;
          cloud_account_id = src.cloud_account_id;
          metric_name = "";
          node_name = "";
          created_at = src.now n;
          time_stamp = of_unix_milli sample.timestamp;
          labels = [];
          value = sample.value;
        })
        labels

  -- `if len(metric.MetricName) == 0 { continue }`
  abbrev pub unless_nameless : Metric → List Metric
  unless_nameless metric = if metric.metric_name == "" then [] else metric ∷ []

  unfoldable pub decode_samples_v1 : ℕ → Labels → List Sample → List Metric
  unfolding metric_of
  decode_samples_v1 n labels [] = []
  decode_samples_v1 n labels (sample ∷ samples) =
      unless_nameless (metric_of n labels sample) ++ decode_samples_v1 (suc n) labels samples

  -- `n` counts the samples read so far.
  unfoldable pub decode_v1 : ℕ → List TimeSeriesV1 → List Metric
  unfolding labels_map decode_samples_v1
  decode_v1 n [] = []
  decode_v1 n (ts ∷ series) =
      decode_samples_v1 n (labels_map [] ts.labels) ts.samples
      ++ decode_v1 (n + length ts.samples) series

  unfoldable pub decode_samples_v2 : ℕ → Labels → List Sample → List Metric
  unfolding metric_of
  decode_samples_v2 n labels [] = []
  decode_samples_v2 n labels (sample ∷ samples) =
      metric_of n labels sample ∷ decode_samples_v2 (suc n) labels samples

  -- The loop over the series: the metrics so far, and the statistics. `stats.samples` is also the
  -- number of samples read.
  unfoldable pub decode_series_v2 :
      List String
      → List Metric
      → WriteResponseStats
      → List TimeSeriesV2
      → Result DecodeError (List Metric × WriteResponseStats)
  decode_series_v2 symbols metrics stats [] = ok (metrics, record stats { confirmed = true })
  decode_series_v2 symbols metrics stats (ts ∷ series) =
      decode_references symbols [] ts.labels_refs >>= λ labels.
      decode_series_v2 symbols (metrics ++ decode_samples_v2 stats.samples labels ts.samples)
        (record stats {
          samples = stats.samples + length ts.samples;
          histograms = stats.histograms + ts.histograms;
          exemplars = stats.exemplars + ts.exemplars;
        })
        series

  unfoldable pub decode_v2 : RequestV2 → Result DecodeError (List Metric × WriteResponseStats)
  unfolding decode_series_v2
  decode_v2 request = decode_series_v2 request.symbols [] no_stats request.timeseries
