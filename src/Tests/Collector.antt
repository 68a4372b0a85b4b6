-- ===== src/Tests/Collector.antt =====
-- A collector over two stores that count what they are given, and remote-write requests.
use mathlib.Core.List.{◌++◌}
use cloudzero_agent.Base.{
  has_prefix, contains, Option, ℕ, ◌+◌, ◌≤◌, String, Bool, true, false, not, ◌||◌, none, some, List,
  [], ◌∷◌, ok, ◌==◌, eq_iff, if◌then◌else◌, lookup, insert, copy, trim_space, split, is_ok, IsMap,
  ◌⊎◌, ◌≡◌, refl, arith,
}
use cloudzero_agent.Metric.Defs.{Metric, import_labels, import_label}
use cloudzero_agent.Filter.Checker.{FilterChecker, test}
use cloudzero_agent.Dcgm.Defs.{
  transform_from, transform_single, flush_memory, transform, new_transformer,
}
use cloudzero_agent.Collector.MetricFilter.{
  filter_metric, keep_labels, MetricFilter, MetricsConfig, with_labels, filter,
}
use cloudzero_agent.Collector.MetricFilter.Laws.{
  filter-select, spec_cost, spec_observability, spec_dropped,
}
use cloudzero_agent.Collector.ContentType.{parse_proto_msg}
use cloudzero_agent.Collector.Decode.{
  Sample, TimeSeriesV1, RequestV2, WriteResponseStats, Source, decode_v2, decode_samples_v2,
  decode_references,
}
use cloudzero_agent.Collector.Decode.Laws.{is_even_length, is_panic, decode_references_in_range}
use cloudzero_agent.Collector.Put.{Store, Collector, Wire, decode_request}
use cloudzero_agent.Collector.Put.{
  put_decoded, store_decoded, store_split, store_cost, store_observability, first_flush,
  parse_content_type, decompress, decode_as, of_v2, of_decode_v2, Decoded, PutError, put_metrics,
}
use cloudzero_agent.Collector.Put.Rows.{KeepsRows, Holds, put_metrics-Holds}
use cloudzero_agent.Collector.Put.Flush.{CountsFlushes, store_flushes, left, serve, serve-flushes}
use cloudzero_agent.Tests.Filter.{compile, match_string, rules}
use cloudzero_agent.Tests.Metric.{cpu}
use cloudzero_agent.Tests.Dcgm.{numbers}

abbrev prefix_checker : String → FilterChecker String
prefix_checker p = record {
  exact_matches = [];
  prefix_matches = p ∷ [];
  suffix_matches = [];
  contains_matches = [];
  regex_matches = [];
}

abbrev metric_filter : MetricFilter String
metric_filter = record {
  cost = some (prefix_checker "cpu");
  observability = some (prefix_checker "up");
  cost_labels = some (prefix_checker "na");
  observability_labels = none;
}

filter-select_example : filter compile match_string (some metric_filter) (cpu ∷ []) ≡ record {
  cost_metrics = spec_cost compile match_string metric_filter (cpu ∷ []);
  observability_metrics = spec_observability compile match_string metric_filter (cpu ∷ []);
  dropped_metrics = spec_dropped compile match_string metric_filter (cpu ∷ []);
}
filter-select_example = filter-select compile match_string metric_filter (cpu ∷ [])

cpu-IsMap : IsMap cpu.labels
unfolding lookup
cpu-IsMap = (refl, tt)

abbrev config : MetricsConfig
config = record { cost = rules; cost_labels = []; observability = rules; observability_labels = [] }

abbrev v1 : String
v1 = "prometheus.WriteRequest"

abbrev v2 : String
v2 = "io.prometheus.write.v2.Request"

abbrev validate : String → Bool
validate m = m == v1 || m == v2

abbrev v2_type : String
v2_type = "application/x-protobuf;proto=io.prometheus.write.v2.Request"

v2_parsed : parse_proto_msg validate v1 v2_type ≡ ok v2
unfolding parse_proto_msg split trim_space
v2_parsed = refl

abbrev src : Source
src = record { cluster_name = "c"; cloud_account_id = "a"; new_uuid = λ n. "u"; now = λ n. n }

abbrev sample : Sample
sample = record { value = "1"; timestamp = 7 }

abbrev series_v1 : List TimeSeriesV1
series_v1 =
    record { labels = ("__name__", "cpu") ∷ ("pod", "p") ∷ []; samples = sample ∷ sample ∷ [] }
    ∷ record { labels = ("pod", "p") ∷ []; samples = sample ∷ [] }
    ∷ []

abbrev request_v2 : RequestV2
request_v2 = record {
  symbols = "" ∷ "__name__" ∷ "cpu" ∷ [];
  timeseries =
      record {
        labels_refs = 1 ∷ 2 ∷ [];
        samples = sample ∷ sample ∷ [];
        histograms = 1;
        exemplars = 0;
      }
      ∷ [];
}

abbrev decoded_cpu : Metric
decoded_cpu = record {
  id = "u";
  cluster_name = "c";
  cloud_account_id = "a";
  metric_name = "cpu";
  node_name = "";
  created_at = 0;
  time_stamp = 7000000;
  labels = [];
  value = "1";
}

abbrev stats_v2 : WriteResponseStats
stats_v2 = record { samples = 2; histograms = 1; exemplars = 0; confirmed = true }

request_v2_decoded :
    decode_v2 src request_v2
    ≡ ok (decoded_cpu ∷ record decoded_cpu { created_at = 1 } ∷ [], stats_v2)
unfolding decode_v2 decode_references decode_samples_v2 import_labels insert import_label copy
request_v2_decoded = refl

abbrev refs : List ℕ
refs = 0 ∷ 1 ∷ 2 ∷ []

decode_references_in_range_example :
    (is_ok (decode_references request_v2.symbols [] refs) ≡ is_even_length refs)
    × (is_panic (decode_references request_v2.symbols [] refs) ≡ not (is_even_length refs))
decode_references_in_range_example =
    decode_references_in_range request_v2.symbols [] refs
      (omega arith, (omega arith, (omega arith, tt)))

-- A body is version 1 (`false`) or version 2 (`true`).
abbrev wire : Wire Bool
wire = record {
  snappy_decode = λ b. some b;
  unmarshal_v1 = λ b. if b then none else some series_v1;
  unmarshal_v2 = λ b. if b then some request_v2 else none;
  validate = validate;
  v1 = v1;
  v2 = v2;
}

two_types : (m : String) → validate m ≡ true → (m ≡ v1) ⊎ (m ≡ v2)
two_types m h = ground (arith, eq_iff m v1, eq_iff m v2)

-- A store that counts its flushes.
abbrev counting : Store ℕ String
counting = record { put = λ s ms. (none, s); flush = λ s. (none, s + 1) }

counting-CountsFlushes : CountsFlushes counting (λ s. s)
counting-CountsFlushes = record { put_keeps = λ s ms. refl; flush_adds = λ s. omega arith }

abbrev collector : Collector ℕ
collector = record {
  cost_store = some 0;
  observability_store = some 0;
  transformer = new_transformer;
  initial_flush = false;
  samples = 0;
}

abbrev requests : List (String × String × Bool)
requests = (v2_type, "snappy", true) ∷ ("", "", false) ∷ (v2_type, "", false) ∷ []

serve-flushes_example :
    store_flushes
      (λ s. s)
      (serve counting counting wire src numbers compile match_string
        (some metric_filter)
        collector
        requests).cost_store
    ≤ store_flushes (λ s. s) collector.cost_store + left (λ s. s) collector.initial_flush
serve-flushes_example =
    serve-flushes counting counting (λ s. s) counting-CountsFlushes wire src numbers compile
      match_string (some metric_filter) collector requests

-- A store that is the list of its rows.
abbrev listing : Store (List Metric) String
listing = record { put = λ s ms. (none, s ++ ms); flush = λ s. (none, s) }

listing-KeepsRows : KeepsRows listing (λ s. s) (λ s. Unit)
listing-KeepsRows = record {
  put_appends = λ s ms r e. (tt, refl);
  flush_keeps = λ s r e. (tt, refl);
}

abbrev listing_collector : Collector (List Metric)
listing_collector = record {
  cost_store = some (cpu ∷ []);
  observability_store = some [];
  transformer = new_transformer;
  initial_flush = false;
  samples = 0;
}

abbrev after : Option (PutError String) × Option WriteResponseStats × Collector (List Metric)
after =
    put_metrics listing listing wire src numbers compile match_string (some metric_filter)
      listing_collector v2_type "snappy" true

after_no_error : after.0 ≡ none
unfolding put_metrics put_decoded store_decoded store_split store_cost store_observability
    first_flush decode_request parse_content_type parse_proto_msg trim_space split decompress
    decode_as of_v2 of_decode_v2 decode_v2 decode_references decode_samples_v2 import_labels
    import_label insert copy transform transform_from transform_single has_prefix flush_memory
    filter filter_metric with_labels keep_labels test lookup contains
after_no_error = refl

put_metrics-Holds_example :
    (decoded : Decoded) × (decode_request {E = String} wire src 0 v2_type "snappy" true
      ≡ ok decoded)
    × Holds
        (λ (s : List Metric). s)
        (λ s. Unit)
        after.2.cost_store
        ((cpu ∷ [])
          ++ (filter compile match_string
              (some metric_filter)
              (transform numbers new_transformer decoded.metrics).0).cost_metrics)
    × Holds
        (λ (s : List Metric). s)
        (λ s. Unit)
        after.2.observability_store
        ([]
          ++ (filter compile match_string
              (some metric_filter)
              (transform numbers new_transformer decoded.metrics).0).observability_metrics)
put_metrics-Holds_example =
    put_metrics-Holds listing listing (λ s. s) (λ s. Unit) listing-KeepsRows listing-KeepsRows wire
      src numbers compile match_string (some metric_filter) listing_collector v2_type "snappy" true
      (cpu ∷ []) [] refl refl tt tt after_no_error
