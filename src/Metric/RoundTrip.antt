-- ===== src/Metric/RoundTrip.antt =====
-- What a metric is after its labels, or all of it, were written out and read back.
use cloudzero_agent.Base.{
  ℕ, ◌-◌, ◌%◌, String, [], ◌∷◌, ◌==◌, eq_iff, copy, lookup, IsMap, Option, none, some, ◌≡◌, refl,
  ◌∙◌, arith, true, false, Bool-cases, inl, inr,
}
use cloudzero_agent.Metric.Defs.{
  Metric, Labels, import_label, import_from, import_labels, full_labels,
}
use cloudzero_agent.Metric.Labels.{
  value_or, is_hoisted, IsHoisted, import_from-name, import_from-node, import_from-labels,
  import_from-hoisted, lookup-full_labels_name, lookup-full_labels_node, lookup-full_labels_other,
}
use cloudzero_agent.Metric.Parquet.{Codec, unix_milli, of_unix_milli, parquet, of_parquet, metric}

-- A time without what is below the millisecond.
abbrev pub to_the_millisecond : ℕ → ℕ
to_the_millisecond t = t - t % 1000000

-- The first metric differs from the second at most in its ID, in the order of its labels and in its
-- times, which are those of the second cut to the millisecond.
pub record SameData (m n : Metric) : Type 0 where
  pub cluster_name : m.cluster_name ≡ n.cluster_name
  pub cloud_account_id : m.cloud_account_id ≡ n.cloud_account_id
  pub metric_name : m.metric_name ≡ n.metric_name
  pub node_name : m.node_name ≡ n.node_name
  pub created_at : m.created_at ≡ to_the_millisecond n.created_at
  pub time_stamp : m.time_stamp ≡ to_the_millisecond n.time_stamp
  pub value : m.value ≡ n.value
  pub labels : (k : String) → lookup k m.labels ≡ lookup k n.labels

-- `import_labels` changes nothing but the name, the node and the labels.
record SameRest (m n : Metric) : Type 0 where
  id : m.id ≡ n.id
  cluster_name : m.cluster_name ≡ n.cluster_name
  cloud_account_id : m.cloud_account_id ≡ n.cloud_account_id
  created_at : m.created_at ≡ n.created_at
  time_stamp : m.time_stamp ≡ n.time_stamp
  value : m.value ≡ n.value

import_label-SameRest :
    (m : Metric) (dest : Labels) (k v : String) → SameRest (import_label m dest k v).0 m
unfolding import_label
import_label-SameRest m dest k v = ground arith

SameRest-trans : (l m n : Metric) → SameRest l m → SameRest m n → SameRest l n
SameRest-trans l m n h k = ground arith

import_from-SameRest :
    (m : Metric) (dest labels : Labels) → SameRest (import_from m dest labels).0 m
unfolding import_from
import_from-SameRest m dest [] = ground arith
import_from-SameRest m dest ((k, v) ∷ labels) =
    let p = import_label m dest k v in
    SameRest-trans (import_from p.0 p.1 labels).0 p.0 m (import_from-SameRest p.0 p.1 labels)
      (import_label-SameRest m dest k v)

value_or_self : (o : Option String) (d : String) → value_or o "" ≡ d → value_or o d ≡ d
value_or_self o d h = ground arith

-- Importing a map with the entries of `full_labels m` gives the labels of `m` back.
module _ (m r : Metric) (h : IsHoisted m) (no_labels : r.labels ≡ []) (labels : Labels)
    (is_map : IsMap labels) (same : (k : String) → lookup k labels ≡ lookup k (full_labels m)) where
  label_hoisted :
      (k : String)
      → is_hoisted k ≡ true
      → lookup k m.labels ≡ none
      → lookup k (import_labels r labels).labels ≡ lookup k m.labels
  unfolding import_labels copy lookup
  label_hoisted k hoisted missing =
      import_from-hoisted r (copy [] r.labels) labels k hoisted ∙ rw (no_labels, missing) refl

  label_other :
      (k : String)
      → (k == "__name__") ≡ false
      → (k == "node") ≡ false
      → lookup k (import_labels r labels).labels ≡ lookup k m.labels
  unfolding import_labels copy lookup
  label_other k n n' =
      import_from-labels r (copy [] r.labels) labels k is_map n n'
      ∙ rw (no_labels, same k, lookup-full_labels_other m h k n n') (ground arith)

  label_same : (k : String) → lookup k (import_labels r labels).labels ≡ lookup k m.labels
  label_same k = elim (Bool-cases (k == "__name__")) [
    | inl e ↦ label_hoisted k (rw e refl) (rw ((eq_iff k "__name__").0 e) h.no_name)
    | inr e ↦ elim (Bool-cases (k == "node")) [
      | inl f ↦ label_hoisted k (rw (e, f) refl) (rw ((eq_iff k "node").0 f) h.no_node)
      | inr f ↦ label_other k e f
    ]
  ]

  name_same : r.metric_name ≡ m.metric_name → (import_labels r labels).metric_name ≡ m.metric_name
  unfolding import_labels
  name_same e =
      import_from-name r (copy [] r.labels) labels is_map
      ∙ rw (same "__name__", e)
          (value_or_self (lookup "__name__" (full_labels m)) _ (lookup-full_labels_name m h))

  node_same : r.node_name ≡ m.node_name → (import_labels r labels).node_name ≡ m.node_name
  unfolding import_labels
  node_same e =
      import_from-node r (copy [] r.labels) labels is_map
      ∙ rw (same "node", e)
          (value_or_self (lookup "node" (full_labels m)) _ (lookup-full_labels_node m h))

cut_time : (t : ℕ) → of_unix_milli (unix_milli t) ≡ to_the_millisecond t
unfolding of_unix_milli unix_milli
cut_time t = omega arith

-- encoding/json gives this map of texts back with the same entries, in whatever order.
pub record RoundTrips (c : Codec) (l : Labels) : Type 0 where
  pub back : Labels
  pub parsed : c.unmarshal (c.marshal l) ≡ some back
  pub is_map : IsMap back
  pub same : (k : String) → lookup k back ≡ lookup k l

-- A metric whose labels hold no key twice and neither "__name__" nor "node" is, after it was written
-- as a Parquet row and read back, the same but for its ID, the order of its labels and its times, which
-- lose what is below the millisecond; the hypothesis on encoding/json is that a map of texts is read
-- back with the same entries.
pub metric-parquet :
    (c : Codec) (m : Metric)
    → RoundTrips c (full_labels m)
    → IsHoisted m
    → (n : Metric) × (metric c (parquet c m) ≡ some n) × SameData n m
unfolding metric parquet import_labels
metric-parquet c m rt h =
    let labels = rt.back in
    let r = of_parquet c (parquet c m) in
    let rest = import_from-SameRest r (copy [] r.labels) labels in
    let is_map = rt.is_map in
    let same = rt.same in
    (
      import_labels r labels,
      rw (rt.parsed, metric) refl,
      record {
        cluster_name = rest.cluster_name;
        cloud_account_id = rest.cloud_account_id;
        metric_name = name_same m r h refl labels is_map same refl;
        node_name = node_same m r h refl labels is_map same refl;
        created_at = rest.created_at ∙ cut_time m.created_at;
        time_stamp = rest.time_stamp ∙ cut_time m.time_stamp;
        value = rest.value;
        labels = label_same m r h refl labels is_map same;
      },
    )
