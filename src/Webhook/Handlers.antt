-- ===== src/Webhook/Handlers.antt =====
-- The handlers that the webhook registers: the constructors of app/domain/webhook/handler and the
-- registrations of `NewWebhookFactory` in app/domain/webhook/webhook.go.
use cloudzero_agent.Base.{String, List, [], ◌∷◌}
use cloudzero_agent.Webhook.Format.{
  pod_data_formatter, namespace_data_formatter, node_data_formatter, workload_data_formatter,
}
use cloudzero_agent.Webhook.Hook.{Decoders, Handler, new_generic_handler, new_class_handler}
use cloudzero_agent.Webhook.Settings.{
  Settings, deployment_config, stateful_set_config, daemon_set_config, replica_set_config,
  pod_config, namespace_config, node_config, service_config, persistent_volume_claim_config,
  job_config, cron_job_config, custom_resource_definition_config, ingress_config, gateway_config,
  storage_class_config, ingress_class_config, gateway_class_config, group_apps, group_batch,
  group_core, group_ext, group_net, group_gateway, group_storage,
}

-- One call of `register`.
pub record Registration : Type 0 where
  pub group : String
  pub version : String
  pub kind : String
  pub handler : Handler

abbrev entry : String → String → String → Handler → Registration
entry g v k h = record { group = g; version = v; kind = k; handler = h }

module _ (d : Decoders) (s : Settings) where
  unfoldable pub new_deployment_handler : String → Handler
  unfolding new_generic_handler workload_data_formatter
  new_deployment_handler t = new_generic_handler d t t (deployment_config s) workload_data_formatter

  unfoldable pub new_stateful_set_handler : String → Handler
  unfolding new_generic_handler workload_data_formatter
  new_stateful_set_handler t =
      new_generic_handler d t t (stateful_set_config s) workload_data_formatter

  unfoldable pub new_daemon_set_handler : String → Handler
  unfolding new_generic_handler workload_data_formatter
  new_daemon_set_handler t = new_generic_handler d t t (daemon_set_config s) workload_data_formatter

  unfoldable pub new_replica_set_handler : String → Handler
  unfolding new_generic_handler workload_data_formatter
  new_replica_set_handler t =
      new_generic_handler d t t (replica_set_config s) workload_data_formatter

  unfoldable pub new_pod_handler : String → Handler
  unfolding new_generic_handler pod_data_formatter
  new_pod_handler t = new_generic_handler d t t (pod_config s) pod_data_formatter

  unfoldable pub new_namespace_handler : String → Handler
  unfolding new_generic_handler namespace_data_formatter
  new_namespace_handler t = new_generic_handler d t t (namespace_config s) namespace_data_formatter

  unfoldable pub new_node_handler : String → Handler
  unfolding new_generic_handler node_data_formatter
  new_node_handler t = new_generic_handler d t t (node_config s) node_data_formatter

  unfoldable pub new_service_handler : String → Handler
  unfolding new_generic_handler workload_data_formatter
  new_service_handler t = new_generic_handler d t t (service_config s) workload_data_formatter

  unfoldable pub new_persistent_volume_claim_handler : String → Handler
  unfolding new_generic_handler workload_data_formatter
  new_persistent_volume_claim_handler t =
      new_generic_handler d t t (persistent_volume_claim_config s) workload_data_formatter

  unfoldable pub new_job_handler : String → Handler
  unfolding new_generic_handler workload_data_formatter
  new_job_handler t = new_generic_handler d t t (job_config s) workload_data_formatter

  unfoldable pub new_cron_job_handler : String → Handler
  unfolding new_generic_handler workload_data_formatter
  new_cron_job_handler t = new_generic_handler d t t (cron_job_config s) workload_data_formatter

  unfoldable pub new_custom_resource_definition_handler : String → Handler
  unfolding new_generic_handler workload_data_formatter
  new_custom_resource_definition_handler t =
      new_generic_handler d t t (custom_resource_definition_config s) workload_data_formatter

  -- Whatever the template, the object is cast to the Ingress, or the Gateway, of version 1.
  unfoldable pub new_ingress_handler : String → Handler
  unfolding new_generic_handler workload_data_formatter
  new_ingress_handler t =
      new_generic_handler d "networkingv1.Ingress" t (ingress_config s) workload_data_formatter

  unfoldable pub new_gateway_handler : String → Handler
  unfolding new_generic_handler workload_data_formatter
  new_gateway_handler t =
      new_generic_handler d "gatewayv1.Gateway" t (gateway_config s) workload_data_formatter

  unfoldable pub new_storage_class_handler : String → Handler
  unfolding new_class_handler
  new_storage_class_handler t = new_class_handler d t (storage_class_config s)

  unfoldable pub new_ingress_class_handler : String → Handler
  unfolding new_class_handler
  new_ingress_class_handler t = new_class_handler d t (ingress_class_config s)

  unfoldable pub new_gateway_class_handler : String → Handler
  unfolding new_class_handler
  new_gateway_class_handler t = new_class_handler d t (gateway_class_config s)

  unfoldable pub registrations : List Registration
  unfolding new_deployment_handler new_stateful_set_handler new_daemon_set_handler
      new_replica_set_handler new_pod_handler new_namespace_handler new_node_handler
      new_service_handler new_persistent_volume_claim_handler new_job_handler new_cron_job_handler
      new_custom_resource_definition_handler new_ingress_handler new_gateway_handler
      new_storage_class_handler new_ingress_class_handler new_gateway_class_handler
  registrations =
      entry group_apps "v1" "deployment" (new_deployment_handler "appsv1.Deployment")
      ∷ entry group_apps "v1beta2" "deployment" (new_deployment_handler "appsv1beta2.Deployment")
      ∷ entry group_apps "v1beta1" "deployment" (new_deployment_handler "appsv1beta1.Deployment")
      ∷ entry group_apps "v1" "statefulset" (new_stateful_set_handler "appsv1.StatefulSet")
      ∷ entry group_apps "v1beta2" "statefulset"
          (new_stateful_set_handler "appsv1beta2.StatefulSet")
      ∷ entry group_apps "v1beta1" "statefulset"
          (new_stateful_set_handler "appsv1beta1.StatefulSet")
      ∷ entry group_apps "v1" "daemonset" (new_daemon_set_handler "appsv1.DaemonSet")
      ∷ entry group_apps "v1beta2" "daemonset" (new_daemon_set_handler "appsv1beta2.DaemonSet")
      ∷ entry group_apps "v1" "replicaset" (new_replica_set_handler "appsv1.ReplicaSet")
      ∷ entry group_apps "v1beta2" "replicaset" (new_replica_set_handler "appsv1beta2.ReplicaSet")
      ∷ entry group_core "v1" "pod" (new_pod_handler "corev1.Pod")
      ∷ entry group_core "v1" "namespace" (new_namespace_handler "corev1.Namespace")
      ∷ entry group_core "v1" "node" (new_node_handler "corev1.Node")
      ∷ entry group_core "v1" "service" (new_service_handler "corev1.Service")
      ∷ entry group_core "v1" "persistentvolume"
          (new_persistent_volume_claim_handler "corev1.PersistentVolume")
      ∷ entry group_core "v1" "persistentvolumeclaim"
          (new_persistent_volume_claim_handler "corev1.PersistentVolumeClaim")
      ∷ entry group_batch "v1" "job" (new_job_handler "batchv1.Job")
      ∷ entry group_batch "v1" "cronjob" (new_cron_job_handler "batchv1.CronJob")
      ∷ entry group_batch "v1beta1" "cronjob" (new_cron_job_handler "batchv1beta1.CronJob")
      ∷ entry group_ext "v1" "customresourcedefinition"
          (new_custom_resource_definition_handler "metav1.PartialObjectMetadata")
      ∷ entry group_ext "v1beta1" "customresourcedefinition"
          (new_custom_resource_definition_handler "metav1beta1.PartialObjectMetadata")
      ∷ entry group_net "v1" "ingress" (new_ingress_handler "networkingv1.Ingress")
      ∷ entry group_net "v1beta1" "ingress" (new_ingress_handler "networkingv1beta1.Ingress")
      ∷ entry group_gateway "v1" "gateway" (new_gateway_handler "gatewayv1.Gateway")
      ∷ entry group_gateway "v1beta1" "gateway" (new_gateway_handler "gatewayv1beta1.Gateway")
      ∷ entry group_storage "v1" "storageclass" (new_storage_class_handler "storagev1.StorageClass")
      ∷ entry group_storage "v1beta1" "storageclass"
          (new_storage_class_handler "storagev1beta1.StorageClass")
      ∷ entry group_net "v1" "ingressclass" (new_ingress_class_handler "networkingv1.IngressClass")
      ∷ entry group_net "v1beta1" "ingressclass"
          (new_ingress_class_handler "networkingv1beta1.IngressClass")
      ∷ entry group_net "v1" "gatewayclass" (new_gateway_class_handler "gatewayv1.GatewayClass")
      ∷ entry group_net "v1beta1" "gatewayclass"
          (new_gateway_class_handler "gatewayv1beta1.GatewayClass")
      ∷ []
