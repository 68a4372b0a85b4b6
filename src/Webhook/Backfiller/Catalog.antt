-- ===== src/Webhook/Backfiller/Catalog.antt =====
-- The catalog of app/domain/webhook/backfiller/backfiller.go: the kinds that are listed in a cluster.
use cloudzero_agent.Base.{String, Bool, true, false, List, [], ◌∷◌}
use cloudzero_agent.Webhook.Settings.{group_apps, group_batch, group_core, group_net, group_storage}

-- `BackFillJobDescription`: its conversion is a cast to a type of Go; the list of a kind without
-- namespaces ignores the namespace.
pub record BackFillJobDescription : Type 0 where
  pub group : String
  pub version : String
  pub kind : String
  pub object_type : String
  pub is_namespaced : Bool

abbrev in_namespaces : String → String → String → String → BackFillJobDescription
in_namespaces g v k t = record {
  group = g;
  version = v;
  kind = k;
  object_type = t;
  is_namespaced = true;
}

abbrev in_cluster : String → String → String → String → BackFillJobDescription
in_cluster g v k t = record {
  group = g;
  version = v;
  kind = k;
  object_type = t;
  is_namespaced = false;
}

unfoldable pub catalog : List BackFillJobDescription
catalog =
    in_namespaces group_apps "v1" "deployment" "appsv1.Deployment"
    ∷ in_namespaces group_apps "v1beta2" "deployment" "appsv1beta2.Deployment"
    ∷ in_namespaces group_apps "v1beta1" "deployment" "appsv1beta1.Deployment"
    ∷ in_namespaces group_apps "v1" "statefulset" "appsv1.StatefulSet"
    ∷ in_namespaces group_apps "v1beta2" "statefulset" "appsv1beta2.StatefulSet"
    ∷ in_namespaces group_apps "v1beta1" "statefulset" "appsv1beta1.StatefulSet"
    ∷ in_namespaces group_apps "v1" "daemonset" "appsv1.DaemonSet"
    ∷ in_namespaces group_apps "v1beta2" "daemonset" "appsv1beta2.DaemonSet"
    ∷ in_namespaces group_apps "v1" "replicaset" "appsv1.ReplicaSet"
    ∷ in_namespaces group_apps "v1beta2" "replicaset" "appsv1beta2.ReplicaSet"
    ∷ in_namespaces group_core "v1" "pod" "corev1.Pod"
    ∷ in_namespaces group_core "v1" "service" "corev1.Service"
    ∷ in_cluster group_core "v1" "persistentvolume" "corev1.PersistentVolume"
    ∷ in_namespaces group_core "v1" "persistentvolumeclaim" "corev1.PersistentVolumeClaim"
    ∷ in_namespaces group_batch "v1" "job" "batchv1.Job"
    ∷ in_namespaces group_batch "v1" "cronjob" "batchv1.CronJob"
    ∷ in_namespaces group_batch "v1beta1" "cronjob" "batchv1beta1.CronJob"
    ∷ in_namespaces group_net "v1" "ingress" "networkingv1.Ingress"
    ∷ in_namespaces group_net "v1beta1" "ingress" "networkingv1beta1.Ingress"
    ∷ in_cluster group_storage "v1" "storageclass" "storagev1.StorageClass"
    ∷ in_cluster group_storage "v1beta1" "storageclass" "storagev1beta1.StorageClass"
    ∷ in_cluster group_net "v1" "ingressclass" "networkingv1.IngressClass"
    ∷ in_cluster group_net "v1beta1" "ingressclass" "networkingv1beta1.IngressClass"
    ∷ []
