-- ===== src/Webhook/Format.antt =====
-- `Filter` of app/config/webhook/filters.go and the formatters of
-- app/domain/webhook/handler/generic_handler.go. Regular expressions and the policy are parameters.
use cloudzero_agent.Base.{
  String, Bool, false, Option, none, some, List, [], ◌∷◌, select, any, not, ◌==◌, if◌then◌else◌,
}
use cloudzero_agent.Pusher.Record.{
  ResourceType, pod, ResourceTags, Tags, resource_type_to_metric_name,
}

-- The settings that a formatter reads, for one type of object.
pub record Accessor : Type 0 where
  pub resource_type : ResourceType
  pub labels_enabled : Bool
  pub annotations_enabled : Bool
  pub labels_enabled_for_type : Bool
  pub annotations_enabled_for_type : Bool
  pub label_matches : List (String → Bool)
  pub annotation_matches : List (String → Bool)
  pub sanitize : String → String

-- What the formatters ask of an object.
pub record KubernetesObject : Type 0 where
  pub name : String
  pub object_namespace : String
  pub labels : Tags
  pub annotations : Tags

unfoldable pub eval_tag : (String → String) → List (String → Bool) → String × String → Bool
eval_tag sanitize patterns (key, value) =
    if not (sanitize key == key)
    then false
    else if not (sanitize value == value)
    then false
    else any (λ matches. matches key) patterns

unfoldable pub filter : (String → String) → Tags → List (String → Bool) → Bool → Tags
unfolding eval_tag
filter sanitize tags patterns enabled =
    if not enabled then [] else select (eval_tag sanitize patterns) tags

abbrev pub labels_of : Accessor → KubernetesObject → Tags
labels_of a o =
    if a.labels_enabled
    then filter a.sanitize o.labels a.label_matches a.labels_enabled_for_type
    else []

abbrev pub annotations_of : Accessor → KubernetesObject → Tags
annotations_of a o =
    if a.annotations_enabled
    then filter a.sanitize o.annotations a.annotation_matches a.annotations_enabled_for_type
    else []

-- A record that has not been stored.
abbrev pub new_record :
    Accessor → KubernetesObject → ResourceType → Option String → Tags → ResourceTags
new_record a o t resource_namespace metric_labels = record {
  id = "";
  resource_type = t;
  name = o.name;
  resource_namespace = resource_namespace;
  metric_labels = some metric_labels;
  labels = some (labels_of a o);
  annotations = some (annotations_of a o);
  record_created = 0;
  record_updated = 0;
  sent_at = none;
  size = 0;
}

abbrev pub type_label : Accessor → String × String
type_label a = ("resource_type", resource_type_to_metric_name a.resource_type)

unfoldable pub pod_data_formatter : Accessor → KubernetesObject → ResourceTags
pod_data_formatter a o =
    new_record a o pod (some o.object_namespace)
      (("pod", o.name) ∷ ("namespace", o.object_namespace) ∷ type_label a ∷ [])

unfoldable pub namespace_data_formatter : Accessor → KubernetesObject → ResourceTags
namespace_data_formatter a o =
    new_record a o a.resource_type none (("namespace", o.name) ∷ type_label a ∷ [])

unfoldable pub node_data_formatter : Accessor → KubernetesObject → ResourceTags
node_data_formatter a o = new_record a o a.resource_type none (("node", o.name) ∷ type_label a ∷ [])

unfoldable pub workload_data_formatter : Accessor → KubernetesObject → ResourceTags
workload_data_formatter a o =
    new_record a o a.resource_type (some o.object_namespace)
      (("workload", o.name) ∷ ("namespace", o.object_namespace) ∷ type_label a ∷ [])
