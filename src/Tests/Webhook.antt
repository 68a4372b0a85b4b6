-- ===== src/Tests/Webhook.antt =====
-- A pod whose label changes.
use cloudzero_agent.Base.{ℕ, String, true, none, some, [], ◌∷◌, ◌==◌, eq_iff, arith, ◌≡◌, refl}
use cloudzero_agent.Pusher.Record.{ResourceTags, pod, resource_type_to_metric_name}
use cloudzero_agent.Pusher.Flush.{mark_sent}
use cloudzero_agent.Webhook.Format.{
  Accessor, KubernetesObject, eval_tag, filter, pod_data_formatter, namespace_data_formatter,
  node_data_formatter, workload_data_formatter,
}
use cloudzero_agent.Webhook.Repository.{
  Write, find_first, create, update_rows, update_record, write_data_to_storage, admit,
}
use cloudzero_agent.Webhook.History.{Apart}
use cloudzero_agent.Webhook.Latest.{write_each, write_each-Describes}
use cloudzero_agent.Webhook.Storage.{Describes, update_record-after_write}

program : Unit {0}
unfolding admit write_data_to_storage update_record update_rows create find_first pod_data_formatter
    namespace_data_formatter node_data_formatter workload_data_formatter filter eval_tag
    resource_type_to_metric_name
program = tt

-- Only the label "app" is kept.
abbrev accessor : Accessor
accessor = record {
  resource_type = pod;
  labels_enabled = true;
  annotations_enabled = true;
  labels_enabled_for_type = true;
  annotations_enabled_for_type = true;
  label_matches = (λ key. key == "app") ∷ [];
  annotation_matches = [];
  sanitize = λ text. text;
}

abbrev pod_with : String → KubernetesObject
pod_with app = record {
  name = "web-1";
  object_namespace = "shop";
  labels = ("app", app) ∷ ("other", "x") ∷ [];
  annotations = ("a", "b") ∷ [];
}

abbrev write_at : ℕ → Write
write_at now = record { now = now; next_id = "id-1"; can_search = true; can_write = true }

-- The record of the pod.
abbrev web : String → ResourceTags
web app = record {
  id = "";
  resource_type = pod;
  name = "web-1";
  resource_namespace = some "shop";
  metric_labels = some (("pod", "web-1") ∷ ("namespace", "shop") ∷ ("resource_type", "pod") ∷ []);
  labels = some (("app", app) ∷ []);
  annotations = some [];
  record_created = 0;
  record_updated = 0;
  sent_at = none;
  size = 0;
}

abbrev stored : ResourceTags
stored = record (web "old") { id = "id-1"; record_created = 3; record_updated = 3 }

admitted : admit (write_at 3) accessor pod_data_formatter (pod_with "old") [] ≡ stored ∷ []
unfolding program
admitted = refl

-- A pod of another name.
abbrev other : ResourceTags
other = record (web "x") { name = "web-2" }

web-Apart : Apart (web "new") other
unfolding program
web-Apart row h =
    let e : row.name ≡ "web-1" = (eq_iff row.name "web-1").0 (ground (arith, h)) in
    rw e (ground arith)

abbrev first_write : Write
first_write = record (write_at 5) { next_id = "id-2" }

abbrev later_write : Write
later_write = record (write_at 6) { next_id = "id-3" }

write_each-Describes_example :
    (row : ResourceTags) × (find_first
        (web "new")
        (write_each ((first_write, web "new") ∷ (later_write, other) ∷ []) (stored ∷ []))
      ≡ some row)
    × Describes (web "new") row
    × (row.sent_at ≡ none)
unfolding program
write_each-Describes_example =
    write_each-Describes first_write (web "new") ((later_write, other) ∷ []) (stored ∷ []) refl refl
      refl refl (refl, refl, (refl, refl, tt)) (web-Apart, tt)

update_record-after_write_example :
    (row : ResourceTags) × (find_first (web "new") (
        update_record 7
          (mark_sent 4 stored)
          (write_data_to_storage (write_at 5) (web "new") (stored ∷ [])))
      ≡ some row)
    × Describes stored row
    × (row.sent_at ≡ some 4)
unfolding program
update_record-after_write_example =
    update_record-after_write (write_at 5) 4 7 (web "new") stored (stored ∷ []) refl refl refl refl
