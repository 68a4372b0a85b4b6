-- ===== src/Pusher/Record.antt =====
-- `ResourceTags` of app/types/resource.go and the kinds of app/config/webhook/const.go. Times are
-- Unix milliseconds, and a pointer that can be nil is an option.
use cloudzero_agent.Base.{ℕ, String, Option, List, if◌then◌else◌, ltb}

pub data ResourceType : Type 0 where
  unknown deployment stateful_set pod node namespace job cron_job daemon_set ingress_class :
      ResourceType
  ingress service custom_resource_definition replica_set storage_class : ResourceType
  persistent_volume persistent_volume_claim gateway_class gateway : ResourceType

unfoldable pub resource_type_to_metric_name : ResourceType → String
resource_type_to_metric_name unknown = "unknown"
resource_type_to_metric_name deployment = "deployment"
resource_type_to_metric_name stateful_set = "statefulset"
resource_type_to_metric_name pod = "pod"
resource_type_to_metric_name node = "node"
resource_type_to_metric_name namespace = "namespace"
resource_type_to_metric_name job = "job"
resource_type_to_metric_name cron_job = "cronjob"
resource_type_to_metric_name daemon_set = "daemonset"
resource_type_to_metric_name ingress_class = "ingressclass"
resource_type_to_metric_name ingress = "ingress"
resource_type_to_metric_name service = "service"
resource_type_to_metric_name custom_resource_definition = "crd"
resource_type_to_metric_name replica_set = "replicaset"
resource_type_to_metric_name storage_class = "storageclass"
resource_type_to_metric_name persistent_volume = "pv"
resource_type_to_metric_name persistent_volume_claim = "pcv"
resource_type_to_metric_name gateway_class = "gatewayclass"
resource_type_to_metric_name gateway = "gateway"

abbrev pub Tags : Type 0
Tags = List (String × String)

pub record ResourceTags : Type 0 where
  pub id : String
  pub resource_type : ResourceType
  pub name : String
  pub resource_namespace : Option String
  pub metric_labels : Option Tags
  pub labels : Option Tags
  pub annotations : Option Tags
  pub record_created : ℕ
  pub record_updated : ℕ
  pub sent_at : Option ℕ
  pub size : ℕ

abbrev pub max_time : ℕ → ℕ → ℕ
max_time t1 t2 = if ltb t2 t1 then t1 else t2
