-- ===== src/Webhook/Settings.antt =====
-- The settings of the kinds (app/config/webhook/resources.go and the `ConfigAccessor`s of
-- app/domain/webhook/handler) and the texts of app/types/k8s_object.go.
use cloudzero_agent.Base.{String, Bool, true, false, List}
use cloudzero_agent.Pusher.Record.{
  ResourceType, deployment, stateful_set, pod, node, namespace, job, cron_job, daemon_set,
  ingress_class, ingress, service, custom_resource_definition, replica_set, storage_class,
  persistent_volume_claim, gateway_class, gateway,
}
use cloudzero_agent.Webhook.Format.{Accessor}

pub record Resources : Type 0 where
  pub pods : Bool
  pub namespaces : Bool
  pub deployments : Bool
  pub jobs : Bool
  pub cron_jobs : Bool
  pub stateful_sets : Bool
  pub daemon_sets : Bool
  pub nodes : Bool

-- `Filters.Labels` or `Filters.Annotations`
pub record TagFilter : Type 0 where
  pub enabled : Bool
  pub resources : Resources

-- What the handlers read of the settings.
pub record Settings : Type 0 where
  pub labels : TagFilter
  pub annotations : TagFilter
  pub label_matches : List (String → Bool)
  pub annotation_matches : List (String → Bool)
  pub sanitize : String → String

-- The accessor of a kind that has its own flag.
abbrev flagged : Settings → ResourceType → (Resources → Bool) → Accessor
flagged s t flag = record {
  resource_type = t;
  labels_enabled = s.labels.enabled;
  annotations_enabled = s.annotations.enabled;
  labels_enabled_for_type = flag s.labels.resources;
  annotations_enabled_for_type = flag s.annotations.resources;
  label_matches = s.label_matches;
  annotation_matches = s.annotation_matches;
  sanitize = s.sanitize;
}

-- The accessor of a kind that is never kept.
abbrev disabled : Settings → ResourceType → Accessor
disabled s t = record {
  resource_type = t;
  labels_enabled = false;
  annotations_enabled = false;
  labels_enabled_for_type = false;
  annotations_enabled_for_type = false;
  label_matches = s.label_matches;
  annotation_matches = s.annotation_matches;
  sanitize = s.sanitize;
}

abbrev pub deployment_config : Settings → Accessor
deployment_config s = flagged s deployment (λ r. r.deployments)

abbrev pub stateful_set_config : Settings → Accessor
stateful_set_config s = flagged s stateful_set (λ r. r.stateful_sets)

abbrev pub daemon_set_config : Settings → Accessor
daemon_set_config s = flagged s daemon_set (λ r. r.daemon_sets)

abbrev pub pod_config : Settings → Accessor
pod_config s = flagged s pod (λ r. r.pods)

abbrev pub namespace_config : Settings → Accessor
namespace_config s = flagged s namespace (λ r. r.namespaces)

abbrev pub node_config : Settings → Accessor
node_config s = flagged s node (λ r. r.nodes)

abbrev pub job_config : Settings → Accessor
job_config s = flagged s job (λ r. r.jobs)

abbrev pub cron_job_config : Settings → Accessor
cron_job_config s = flagged s cron_job (λ r. r.cron_jobs)

abbrev pub replica_set_config : Settings → Accessor
replica_set_config s = disabled s replica_set

abbrev pub service_config : Settings → Accessor
service_config s = disabled s service

abbrev pub persistent_volume_claim_config : Settings → Accessor
persistent_volume_claim_config s = disabled s persistent_volume_claim

abbrev pub custom_resource_definition_config : Settings → Accessor
custom_resource_definition_config s = disabled s custom_resource_definition

abbrev pub ingress_config : Settings → Accessor
ingress_config s = disabled s ingress

abbrev pub gateway_config : Settings → Accessor
gateway_config s = disabled s gateway

abbrev pub storage_class_config : Settings → Accessor
storage_class_config s = flagged s storage_class (λ r. true)

abbrev pub ingress_class_config : Settings → Accessor
ingress_class_config s = flagged s ingress_class (λ r. true)

abbrev pub gateway_class_config : Settings → Accessor
gateway_class_config s = flagged s gateway_class (λ r. true)

-- The groups, versions and kinds.
abbrev pub group_apps : String
group_apps = "apps"

abbrev pub group_batch : String
group_batch = "batch"

abbrev pub group_core : String
group_core = ""

abbrev pub group_ext : String
group_ext = "apiextensions.k8s.io"

abbrev pub group_net : String
group_net = "networking.k8s.io"

abbrev pub group_gateway : String
group_gateway = "gateway.networking.k8s.io"

abbrev pub group_storage : String
group_storage = "storage.k8s.io"
