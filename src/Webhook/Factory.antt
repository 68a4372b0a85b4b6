-- ===== src/Webhook/Factory.antt =====
-- What the controller answers whose table `NewWebhookFactory` fills.
use cloudzero_agent.Base.{
  String, true, some, List, [], ◌∷◌, ◌&&◌, ◌==◌, All, Bool-cases, Option-cases, of_some, inl, inr,
  lookup, ◌≡◌, arith,
}
use cloudzero_agent.Pusher.Record.{ResourceTags}
use cloudzero_agent.Webhook.Format.{
  pod_data_formatter, namespace_data_formatter, node_data_formatter, workload_data_formatter,
}
use cloudzero_agent.Webhook.Repository.{Write}
use cloudzero_agent.Webhook.Review.{AdmissionReview}
use cloudzero_agent.Webhook.Hook.{Handler, Decoders}
use cloudzero_agent.Webhook.Settings.{Settings}
use cloudzero_agent.Webhook.Handlers.{
  Registration, registrations, new_deployment_handler, new_stateful_set_handler,
  new_daemon_set_handler, new_replica_set_handler, new_pod_handler, new_namespace_handler,
  new_node_handler, new_service_handler, new_persistent_volume_claim_handler, new_job_handler,
  new_cron_job_handler, new_custom_resource_definition_handler, new_ingress_handler,
  new_gateway_handler, new_storage_class_handler, new_ingress_class_handler,
  new_gateway_class_handler,
}
use cloudzero_agent.Webhook.Controller.{
  Dispatch, register, find_handler, register_all, WebhookController, new_webhook_factory, processor,
  review,
}
use cloudzero_agent.Webhook.Admission.{find_handler-register, registered-find_handler}
use cloudzero_agent.Webhook.Answers.{
  is_allowed, AlwaysAdmits, execute-allowed, new_generic_handler-AlwaysAdmits,
  new_class_handler-AlwaysAdmits, default_handler-AlwaysAdmits,
}

-- What holds of every registered handler holds of one that is found.
find_handler-register_all {ℓ} :
    (P : Handler → Type ℓ) (rs : List Registration) (table : Dispatch)
    → All (λ (r : Registration). P r.handler) rs
    → ((g v k : String) (h : Handler) → find_handler g v k table ≡ some h → P h)
    → (g v k : String) (h : Handler) → find_handler g v k (register_all rs table) ≡ some h
    → P h
unfolding register_all
find_handler-register_all P [] table ps before g v k h e = before g v k h e
find_handler-register_all P (r ∷ rs) table (p, ps) before g v k h e =
    find_handler-register_all P rs (register r.group r.version r.kind r.handler table) ps
      (λ g v k h e. elim (Bool-cases (r.group == g && r.version == v && r.kind == k)) [
        | inl same ↦
            of_some P r.handler h
              (rw same at
                (rw (find_handler-register r.group r.version r.kind r.handler table g v k) at e))
              p
        | inr differs ↦ before g v k h (
            rw differs at
              (rw (find_handler-register r.group r.version r.kind r.handler table g v k) at e))
      ])
      g v k h e

infixr 4 ◌▸◌
◌▸◌ {ℓ κ} : {A : Type ℓ} {B : Type κ} → A → B → A × B
p ▸ ps = (p, ps)

registrations-AlwaysAdmits :
    (d : Decoders) (s : Settings)
    → All (λ (r : Registration). AlwaysAdmits r.handler) (registrations d s)
unfolding registrations new_deployment_handler new_stateful_set_handler new_daemon_set_handler
    new_replica_set_handler new_pod_handler new_namespace_handler new_node_handler
    new_service_handler new_persistent_volume_claim_handler new_job_handler new_cron_job_handler
    new_custom_resource_definition_handler new_ingress_handler new_gateway_handler
    new_storage_class_handler new_ingress_class_handler new_gateway_class_handler
registrations-AlwaysAdmits d s =
    new_generic_handler-AlwaysAdmits d _ "appsv1.Deployment" _ workload_data_formatter
    ▸ new_generic_handler-AlwaysAdmits d _ "appsv1beta2.Deployment" _ workload_data_formatter
    ▸ new_generic_handler-AlwaysAdmits d _ "appsv1beta1.Deployment" _ workload_data_formatter
    ▸ new_generic_handler-AlwaysAdmits d _ "appsv1.StatefulSet" _ workload_data_formatter
    ▸ new_generic_handler-AlwaysAdmits d _ "appsv1beta2.StatefulSet" _ workload_data_formatter
    ▸ new_generic_handler-AlwaysAdmits d _ "appsv1beta1.StatefulSet" _ workload_data_formatter
    ▸ new_generic_handler-AlwaysAdmits d _ "appsv1.DaemonSet" _ workload_data_formatter
    ▸ new_generic_handler-AlwaysAdmits d _ "appsv1beta2.DaemonSet" _ workload_data_formatter
    ▸ new_generic_handler-AlwaysAdmits d _ "appsv1.ReplicaSet" _ workload_data_formatter
    ▸ new_generic_handler-AlwaysAdmits d _ "appsv1beta2.ReplicaSet" _ workload_data_formatter
    ▸ new_generic_handler-AlwaysAdmits d _ "corev1.Pod" _ pod_data_formatter
    ▸ new_generic_handler-AlwaysAdmits d _ "corev1.Namespace" _ namespace_data_formatter
    ▸ new_generic_handler-AlwaysAdmits d _ "corev1.Node" _ node_data_formatter
    ▸ new_generic_handler-AlwaysAdmits d _ "corev1.Service" _ workload_data_formatter
    ▸ new_generic_handler-AlwaysAdmits d _ "corev1.PersistentVolume" _ workload_data_formatter
    ▸ new_generic_handler-AlwaysAdmits d _ "corev1.PersistentVolumeClaim" _ workload_data_formatter
    ▸ new_generic_handler-AlwaysAdmits d _ "batchv1.Job" _ workload_data_formatter
    ▸ new_generic_handler-AlwaysAdmits d _ "batchv1.CronJob" _ workload_data_formatter
    ▸ new_generic_handler-AlwaysAdmits d _ "batchv1beta1.CronJob" _ workload_data_formatter
    ▸ new_generic_handler-AlwaysAdmits d _ "metav1.PartialObjectMetadata" _ workload_data_formatter
    ▸ new_generic_handler-AlwaysAdmits d _ "metav1beta1.PartialObjectMetadata" _
        workload_data_formatter
    ▸ new_generic_handler-AlwaysAdmits d _ "networkingv1.Ingress" _ workload_data_formatter
    ▸ new_generic_handler-AlwaysAdmits d _ "networkingv1beta1.Ingress" _ workload_data_formatter
    ▸ new_generic_handler-AlwaysAdmits d _ "gatewayv1.Gateway" _ workload_data_formatter
    ▸ new_generic_handler-AlwaysAdmits d _ "gatewayv1beta1.Gateway" _ workload_data_formatter
    ▸ new_class_handler-AlwaysAdmits d "storagev1.StorageClass" _
    ▸ new_class_handler-AlwaysAdmits d "storagev1beta1.StorageClass" _
    ▸ new_class_handler-AlwaysAdmits d "networkingv1.IngressClass" _
    ▸ new_class_handler-AlwaysAdmits d "networkingv1beta1.IngressClass" _
    ▸ new_class_handler-AlwaysAdmits d "gatewayv1.GatewayClass" _
    ▸ new_class_handler-AlwaysAdmits d "gatewayv1beta1.GatewayClass" _
    ▸ tt

processor-AlwaysAdmits :
    (wc : WebhookController) (g v k : String)
    → AlwaysAdmits wc.default_handler
    → ((h : Handler) → find_handler g v k wc.dispatch ≡ some h → AlwaysAdmits h)
    → AlwaysAdmits (processor wc g v k)
unfolding processor
processor-AlwaysAdmits wc g v k default found =
    elim (Option-cases (find_handler g v k wc.dispatch)) [
      | inl e ↦ rw (registered-find_handler g v k wc.dispatch, e) default
      | inr (h, e) ↦ rw (registered-find_handler g v k wc.dispatch, e) (found h e)
    ]

-- While the database takes its writes the webhook refuses no review: whatever its kind, its operation
-- and the rows, and whether the search for the record fails or not, the controller of the factory does
-- not panic, returns no error and a response that admits it.
pub review-allowed :
    (to_lower : String → String) (d : Decoders) (s : Settings) (w : Write) (ar : AdmissionReview)
    (rows : List ResourceTags)
    → w.can_write ≡ true
    → is_allowed (review to_lower (new_webhook_factory d s) w ar rows) ≡ true
unfolding review new_webhook_factory find_handler lookup
review-allowed to_lower d s w ar rows h =
    execute-allowed _ w ar rows
      (processor-AlwaysAdmits (new_webhook_factory d s) ar.request_gvk.group ar.request_gvk.version
        (to_lower ar.request_gvk.kind) (default_handler-AlwaysAdmits d)
        (find_handler-register_all AlwaysAdmits (registrations d s) []
          (registrations-AlwaysAdmits d s) (λ g v k h e. absurd (ground (arith, e)))
          ar.request_gvk.group ar.request_gvk.version (to_lower ar.request_gvk.kind)))
      h
