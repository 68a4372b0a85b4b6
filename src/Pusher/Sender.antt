-- ===== src/Pusher/Sender.antt =====
-- `FormatMetrics` and `PushMetrics` of app/domain/pusher/sender.go. Protobuf, snappy and the server
-- are parameters; the log, the counters of the agent itself and the pauses are left out.
use cloudzero_agent.Base.{
  ℕ, zero, suc, ◌&&◌, String, Bool, true, false, Option, none, some, List, [], ◌∷◌, ◌++◌, map,
  ◌++ₛ◌, if◌then◌else◌, ltb, leb,
}
use cloudzero_agent.Pusher.Record.{
  ResourceTags, ResourceType, Tags, resource_type_to_metric_name, max_time,
}

-- One sample of value 1, at a time.
pub record TimeSeries : Type 0 where
  pub labels : Tags
  pub timestamp : ℕ

abbrev label_tag : String × String → String × String
label_tag (k, v) = ("label_" ++ₛ k, v)

unfoldable pub create_timeseries : String → Tags → Tags → ℕ → TimeSeries
create_timeseries metric_name metric_tags additional record_time = record {
  labels = ("__name__", metric_name) ∷ additional ++ map label_tag metric_tags;
  timestamp = record_time;
}

abbrev metric_name_of : ResourceType → String → String
unfolding resource_type_to_metric_name
metric_name_of t what = "cloudzero_" ++ₛ resource_type_to_metric_name t ++ₛ what

abbrev annotation_series : ResourceTags → Tags → Option Tags → List TimeSeries
unfolding create_timeseries resource_type_to_metric_name
annotation_series r metric_labels none = []
annotation_series r metric_labels (some annotations) =
    create_timeseries (metric_name_of r.resource_type "_annotations") annotations metric_labels
      (max_time r.record_updated r.record_created)
    ∷ []

-- The series of one record; `none` is a panic, since `Labels` and `MetricLabels` are read without a test.
abbrev record_series_from : ResourceTags → Option Tags → Option Tags → Option (List TimeSeries)
unfolding create_timeseries resource_type_to_metric_name
record_series_from r none _ = none
record_series_from r (some labels) none = none
record_series_from r (some labels) (some metric_labels) = some (
    create_timeseries (metric_name_of r.resource_type "_labels") labels metric_labels
      (max_time r.record_updated r.record_created)
    ∷ annotation_series r metric_labels r.annotations)

unfoldable pub record_series : ResourceTags → Option (List TimeSeries)
unfolding create_timeseries resource_type_to_metric_name
record_series r = record_series_from r r.labels r.metric_labels

abbrev pub append_both {ℓ} : {A : Type ℓ} → Option (List A) → Option (List A) → Option (List A)
append_both none ys = none
append_both (some xs) none = none
append_both (some xs) (some ys) = some (xs ++ ys)

unfoldable pub format_metrics : List ResourceTags → Option (List TimeSeries)
format_metrics [] = some []
format_metrics (r ∷ records) = append_both (record_series r) (format_metrics records)

-- What lies outside the agent: whether a request can be encoded and built, and the status with which
-- the server answers the n-th request, if it answers.
pub record Remote : Type 0 where
  pub can_marshal : List TimeSeries → Bool
  pub can_request : Bool
  pub reply : ℕ → Option ℕ

-- The requests made so far, and the payloads that were answered with a 2xx status, in order.
pub record Traffic : Type 0 where
  pub requests : ℕ
  pub accepted : List (List TimeSeries)

abbrev pub is_success : Option ℕ → Bool
is_success none = false
is_success (some status) = leb 200 status && ltb status 300

-- `maxRetries` attempts; `true` is the nil error.
unfoldable pub push_attempts : Remote → ℕ → List TimeSeries → Traffic → Bool × Traffic
push_attempts remote zero payload traffic = (false, traffic)
push_attempts remote (suc retries) payload traffic =
    let sent = record traffic { requests = suc traffic.requests } in
    let again = push_attempts remote retries payload sent in
    if is_success (remote.reply traffic.requests)
    then (true, record sent { accepted = traffic.accepted ++ payload ∷ [] })
    else again

unfoldable pub push_metrics : Remote → ℕ → List TimeSeries → Traffic → Bool × Traffic
unfolding push_attempts
push_metrics remote max_retries payload traffic =
    if remote.can_marshal payload && remote.can_request
    then push_attempts remote max_retries payload traffic
    else (false, traffic)
