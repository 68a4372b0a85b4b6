-- ===== src/Collector/Put.antt =====
-- `PutMetrics` of app/domain/metric_collector.go: parse, decode, transform, classify, store. Logging
-- and the Prometheus counters are left out. The requests are served one after another: the source sets
-- the flag of the first flush without a lock, and handlers that run at once can both flush.
pub mod Laws
pub mod Flush
pub mod Rows
use cloudzero_agent.Base.{
  ℕ, ◌+◌, String, Bool, true, false, not, ◌&&◌, Option, none, some, List, [], ◌∷◌, Result, ok, err,
  ◌>>=◌, ◌==◌, if◌then◌else◌, length,
}
use cloudzero_agent.Metric.Defs.{Metric}
use cloudzero_agent.Dcgm.Defs.{Transformer, Numbers, transform}
use cloudzero_agent.Collector.MetricFilter.{MetricFilter, Split, filter}
use cloudzero_agent.Collector.ContentType.{
  ContentTypeError, app_proto_content_type, parse_proto_msg,
}
use cloudzero_agent.Collector.Decode.{
  TimeSeriesV1, RequestV2, WriteResponseStats, Source, decode_v1, decode_v2, DecodeError,
  index_panic, invalid_references, no_stats,
}

-- `types.WritableStore`: both operations change the store also where they fail.
pub record Store (S E : Type 0) : Type 0 where
  pub put : S → List Metric → Option E × S
  pub flush : S → Option E × S

pub data PutError (E : Type 0) : Type 0 where
  content_type : ContentTypeError → PutError E
  snappy json_unmarshal panic : PutError E
  unsupported : String → PutError E
  store : E → PutError E

-- What the collector changes; `none` is a store that is nil. `samples` counts the samples decoded by
-- earlier requests.
pub record Collector (S : Type 0) : Type 0 where
  pub cost_store : Option S
  pub observability_store : Option S
  pub transformer : Transformer
  pub initial_flush : Bool
  pub samples : ℕ

-- What Go's and Prometheus' packages decide about a request body: snappy, protobuf, the two message
-- types.
pub record Wire (Body : Type 0) : Type 0 where
  pub snappy_decode : Body → Option Body
  pub unmarshal_v1 : Body → Option (List TimeSeriesV1)
  pub unmarshal_v2 : Body → Option RequestV2
  pub validate : String → Bool
  pub v1 : String
  pub v2 : String

-- The decoded metrics, the statistics (nil for version 1), and the number of samples read.
pub record Decoded : Type 0 where
  pub metrics : List Metric
  pub stats : Option WriteResponseStats
  pub read : ℕ

abbrev pub is_empty {ℓ} : {A : Type ℓ} → List A → Bool
is_empty [] = true
is_empty (x ∷ xs) = false

abbrev pub is_nil {ℓ} : {A : Type ℓ} → Option A → Bool
is_nil none = true
is_nil (some x) = false

abbrev samples_v1 : List TimeSeriesV1 → ℕ
samples_v1 [] = 0
samples_v1 (ts ∷ series) = length ts.samples + samples_v1 series

-- The source numbers fresh values from the first request on.
abbrev from_sample : Source → ℕ → Source
from_sample src n = record src { new_uuid = λ k. src.new_uuid (n + k); now = λ k. src.now (n + k) }

-- An error, with the statistics that are returned beside it.
abbrev pub Failure : Type 0 → Type 0
Failure E = PutError E × Option WriteResponseStats

module _ {Body E : Type 0} (wire : Wire Body) (src : Source) where
  unfoldable pub of_v1 : ℕ → Option (List TimeSeriesV1) → Result (Failure E) Decoded
  of_v1 n none = err (json_unmarshal, none)
  of_v1 n (some series) =
      ok (record { metrics = decode_v1 src n series; stats = none; read = samples_v1 series })

  unfoldable pub of_decode_v2 :
      Result DecodeError (List Metric × WriteResponseStats) → Result (Failure E) Decoded
  of_decode_v2 (err index_panic) = err (panic, none)
  of_decode_v2 (err invalid_references) = err (json_unmarshal, some no_stats)
  of_decode_v2 (ok (metrics, stats)) =
      ok (record { metrics = metrics; stats = some stats; read = stats.samples })

  unfoldable pub of_v2 : ℕ → Option RequestV2 → Result (Failure E) Decoded
  unfolding of_decode_v2
  of_v2 n none = err (json_unmarshal, some no_stats)
  of_v2 n (some request) = of_decode_v2 (decode_v2 (from_sample src n) request)

  unfoldable pub decompress : String → Body → Result (Failure E) Body
  decompress encoding_type body =
      if encoding_type == "snappy"
      then elim (wire.snappy_decode body) [ none ↦ err (snappy, none) | some b ↦ ok b ]
      else ok body

  unfoldable pub of_content_type : Result ContentTypeError String → Result (Failure E) String
  of_content_type (ok m) = ok m
  of_content_type (err e) = err (content_type e, none)

  unfoldable pub parse_content_type : String → Result (Failure E) String
  unfolding of_content_type
  parse_content_type t =
      of_content_type
        (parse_proto_msg wire.validate wire.v1 (if t == "" then app_proto_content_type else t))

  unfoldable pub decode_as : ℕ → Body → String → Result (Failure E) Decoded
  decode_as n body t =
      if t == wire.v1
      then of_v1 n (wire.unmarshal_v1 body)
      else if t == wire.v2
      then of_v2 n (wire.unmarshal_v2 body)
      else err (unsupported t, none)

  -- The first half of `PutMetrics`.
  unfoldable pub decode_request : ℕ → String → String → Body → Result (Failure E) Decoded
  decode_request n t encoding_type body = do
    m ← parse_content_type t
    decompressed ← decompress encoding_type body
    decode_as n decompressed m

module _ {S E : Type 0} (cost observability : Store S E) where
  -- What a store operation leaves, with its error if there is one.
  abbrev pub outcome : Collector S → Option E → Option (PutError E) × Collector S
  outcome d none = (none, d)
  outcome d (some e) = (some (store e), d)

  -- The first flush, immediately after the first cost metrics were stored.
  unfoldable pub first_flush : Collector S → S → List Metric → Option (PutError E) × Collector S
  first_flush d s metrics =
      if not d.initial_flush && not (is_empty metrics)
      then (let (e, s') = cost.flush s in
          outcome (record d { cost_store = some s'; initial_flush = true }) e)
      else (none, record d { cost_store = some s })

  abbrev pub after_put :
      Collector S → S → Option E → List Metric → Option (PutError E) × Collector S
  after_put d s none metrics = first_flush d s metrics
  after_put d s (some e) metrics = (some (store e), record d { cost_store = some s })

  -- `is_nil`: whether the slice of cost metrics is nil.
  unfoldable pub store_cost :
      Collector S → Bool → List Metric → Option S → Option (PutError E) × Collector S
  store_cost d is_nil metrics none = (none, d)
  store_cost d is_nil metrics (some s) =
      if is_nil then (none, d) else (let (e, s') = cost.put s metrics in after_put d s' e metrics)

  unfoldable pub store_observability :
      Collector S → Bool → List Metric → Option S → Option (PutError E) × Collector S
  store_observability d is_nil metrics none = (none, d)
  store_observability d is_nil metrics (some s) =
      if is_nil
      then (none, d)
      else (let (e, s') = observability.put s metrics in
          outcome (record d { observability_store = some s' }) e)

  abbrev pub then_observability :
      Option (PutError E) × Collector S → Bool → List Metric → Option (PutError E) × Collector S
  then_observability (some e, d) is_nil metrics = (some e, d)
  then_observability (none, d) is_nil metrics =
      store_observability d is_nil metrics d.observability_store

  -- The second half of `PutMetrics`.
  unfoldable pub store_split : Collector S → Bool → Bool → Split → Option (PutError E) × Collector S
  store_split d cost_nil observability_nil s =
      then_observability (store_cost d cost_nil s.cost_metrics d.cost_store) observability_nil
        s.observability_metrics

  -- `Flush` of the collector: the observability store is flushed only after the cost store was.
  unfoldable pub flush_collector : S → S → Option E × S × S
  flush_collector c o =
      let (e, c') = cost.flush c in
      elim e [
        | some x ↦ (some x, c', o)
        | none ↦ let (e', o') = observability.flush o in (e', c', o')
      ]

  module _ {Body F Regex : Type 0} (wire : Wire Body) (src : Source) (num : Numbers F)
      (compile : String → Option Regex) (match_string : Regex → String → Bool)
      (mf : Option (MetricFilter Regex)) where
    -- Transform, classify, store. A filter's slices are nil if nothing was appended; without a filter
    -- they are the transformed metrics, a slice that is nil only if nothing was decoded.
    unfoldable pub store_decoded :
        Collector S → Decoded → Option (PutError E) × Option WriteResponseStats × Collector S
    store_decoded d decoded =
        let (metrics, t) = transform num d.transformer decoded.metrics in
        let s = filter compile match_string mf metrics in
        let d' = record d { transformer = t; samples = d.samples + decoded.read } in
        let cost_nil = (if is_nil mf then is_empty decoded.metrics else is_empty s.cost_metrics) in
        let observability_nil =
          (if is_nil mf then is_empty decoded.metrics else is_empty s.observability_metrics) in
        let (e, d'') = store_split d' cost_nil observability_nil s in (e, decoded.stats, d'')

    unfoldable pub put_decoded :
        Collector S
        → Result (Failure E) Decoded
        → Option (PutError E) × Option WriteResponseStats × Collector S
    put_decoded d (err (e, stats)) = (some e, stats, d)
    put_decoded d (ok decoded) = store_decoded d decoded

    unfoldable pub put_metrics :
        Collector S
        → String
        → String
        → Body
        → Option (PutError E) × Option WriteResponseStats × Collector S
    put_metrics d t encoding_type body =
        put_decoded d (decode_request wire src d.samples t encoding_type body)
