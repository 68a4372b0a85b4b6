-- ===== src/Metric/Defs.antt =====
-- `Metric`, `ImportLabels` and `FullLabels`. Times are Unix nanoseconds; a nil map of labels is the
-- empty one.
use cloudzero_agent.Base.{ℕ, String, List, [], ◌∷◌, ◌==◌, if◌then◌else◌, insert, copy}

abbrev pub Labels : Type 0
Labels = List (String × String)

pub record Metric : Type 0 where
  pub id : String
  pub cluster_name : String
  pub cloud_account_id : String
  pub metric_name : String
  pub node_name : String
  pub created_at : ℕ
  pub time_stamp : ℕ
  pub labels : Labels
  pub value : String

-- One round of the loop of `ImportLabels`: `dest` is the map that becomes `m.Labels`.
unfoldable pub import_label : Metric → Labels → String → String → Metric × Labels
import_label m dest k v =
    if k == "__name__"
    then (record m { metric_name = v }, dest)
    else if k == "node"
    then (record m { node_name = v }, dest)
    else (m, insert k v dest)

unfoldable pub import_from : Metric → Labels → Labels → Metric × Labels
import_from m dest [] = (m, dest)
import_from m dest ((k, v) ∷ labels) =
    let (m', dest') = import_label m dest k v in import_from m' dest' labels

unfoldable pub import_labels : Metric → Labels → Metric
unfolding import_from
import_labels m labels =
    let (m', dest) = import_from m (copy [] m.labels) labels in record m' { labels = dest }

-- The label `k` is set from a field that is not the empty text.
unfoldable pub set_if_present : String → String → Labels → Labels
set_if_present k v labels = if v == "" then labels else insert k v labels

unfoldable pub full_labels : Metric → Labels
unfolding set_if_present
full_labels m =
    set_if_present "node" m.node_name (set_if_present "__name__" m.metric_name (copy [] m.labels))
