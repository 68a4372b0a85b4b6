-- ===== src/Metric/Parquet.antt =====
-- `ParquetMetric`, with `Metric.Parquet` and `ParquetMetric.Metric`. A row keeps times in milliseconds. A Parquet row keeps no `ID`.
use cloudzero_agent.Base.{ℕ, ◌*◌, ◌/◌, String, [], Option, none, some}
use cloudzero_agent.Metric.Defs.{Metric, Labels, import_labels, full_labels}

pub record ParquetMetric : Type 0 where
  pub cluster_name : String
  pub cloud_account_id : String
  pub year : String
  pub month : String
  pub day : String
  pub hour : String
  pub metric_name : String
  pub node_name : String
  pub created_at : ℕ
  pub time_stamp : ℕ
  pub labels : String
  pub value : String

-- Go's packages time and encoding/json: `Time.Format` at a layout, and the codec for a map of texts.
pub record Codec : Type 0 where
  pub format : ℕ → String → String
  pub marshal : Labels → String
  pub unmarshal : String → Option Labels

-- `Time.UnixMilli` and `time.UnixMilli`
unfoldable pub unix_milli : ℕ → ℕ
unix_milli t = t / 1000000

unfoldable pub of_unix_milli : ℕ → ℕ
of_unix_milli milli = milli * 1000000

module _ (c : Codec) where
  open c use {format, marshal, unmarshal}

  unfoldable pub parquet : Metric → ParquetMetric
  unfolding unix_milli
  parquet m = record {
    cluster_name = m.cluster_name;
    cloud_account_id = m.cloud_account_id;
    year = format m.time_stamp "2006";
    month = format m.time_stamp "01";
    day = format m.time_stamp "02";
    hour = format m.time_stamp "15";
    metric_name = m.metric_name;
    node_name = m.node_name;
    created_at = unix_milli m.created_at;
    time_stamp = unix_milli m.time_stamp;
    labels = marshal (full_labels m);
    value = m.value;
  }

  -- The zero `uuid.UUID`.
  abbrev pub nil_uuid : String
  nil_uuid = "00000000-0000-0000-0000-000000000000"

  abbrev pub of_parquet : ParquetMetric → Metric
  of_parquet pm = record {
    id = nil_uuid;
    cluster_name = pm.cluster_name;
    cloud_account_id = pm.cloud_account_id;
    metric_name = pm.metric_name;
    node_name = pm.node_name;
    created_at = of_unix_milli pm.created_at;
    time_stamp = of_unix_milli pm.time_stamp;
    labels = [];
    value = pm.value;
  }

  -- `none`: the labels do not parse, and `Fatal` ends the process.
  unfoldable pub metric : ParquetMetric → Option Metric
  unfolding of_unix_milli
  metric pm = elim (unmarshal pm.labels) [
    | none ↦ none
    | some labels ↦ some (import_labels (of_parquet pm) labels)
  ]
