-- ===== src/Tests/Metric.antt =====
-- A metric written as a Parquet row and read back, with a small text format for labels.
use cloudzero_agent.Base.{
  String, Option, some, List, [], ◌∷◌, ◌++ₛ◌, split, ◌≡◌, refl, lookup, copy, insert,
}
use cloudzero_agent.Metric.Defs.{Metric, Labels, full_labels, import_labels, import_label}
use cloudzero_agent.Metric.Labels.{IsHoisted}
use cloudzero_agent.Metric.Parquet.{Codec, parquet, metric, nil_uuid}
use cloudzero_agent.Metric.RoundTrip.{RoundTrips, SameData, metric-parquet}

-- `k=v;` for each label.
abbrev write_labels : Labels → String
write_labels [] = ""
write_labels ((k, v) ∷ labels) = k ++ₛ "=" ++ₛ v ++ₛ ";" ++ₛ write_labels labels

abbrev read_pair : List String → Option Labels → Option Labels
read_pair (k ∷ v ∷ []) (some labels) = some ((k, v) ∷ labels)
read_pair _ rest = rest

abbrev read_labels : List String → Option Labels
read_labels [] = some []
read_labels (t ∷ texts) = let rest = read_labels texts in read_pair (split b'=' t) rest

abbrev codec : Codec
codec = record {
  format = λ t layout. layout;
  marshal = write_labels;
  unmarshal = λ t. read_labels (split b';' t);
}

abbrev pub cpu : Metric
cpu = record {
  id = "1";
  cluster_name = "c";
  cloud_account_id = "a";
  metric_name = "cpu";
  node_name = "n1";
  created_at = 10000001;
  time_stamp = 20000000;
  labels = ("pod", "p") ∷ [];
  value = "1.5";
}

cpu-RoundTrips : RoundTrips codec (full_labels cpu)
unfolding full_labels insert copy split lookup
cpu-RoundTrips = record {
  back = full_labels cpu;
  parsed = refl;
  is_map = (refl, (refl, (refl, tt)));
  same = λ k. refl;
}

cpu-IsHoisted : IsHoisted cpu
unfolding lookup
cpu-IsHoisted = record { map = (refl, tt); no_name = refl; no_node = refl }

cpu_read_back :
    metric codec (parquet codec cpu)
    ≡ some (record cpu { id = nil_uuid codec; created_at = 10000000 })
unfolding metric parquet full_labels split insert copy import_labels import_label
cpu_read_back = refl

metric-parquet_example : (n : Metric) × (metric codec (parquet codec cpu) ≡ some n) × SameData n cpu
metric-parquet_example = metric-parquet codec cpu cpu-RoundTrips cpu-IsHoisted
