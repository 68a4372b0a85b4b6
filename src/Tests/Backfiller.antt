-- ===== src/Tests/Backfiller.antt =====
-- A cluster with one namespace and one pod, whose nodes are refused once.
use cloudzero_agent.Base.{
  ◌<◌, ◌*◌, String, true, false, none, some, [], ◌∷◌, ok, ◌==◌, ltb, if◌then◌else◌, ◌≡◌, refl,
  arith,
}
use cloudzero_agent.Webhook.Format.{Accessor}
use cloudzero_agent.Webhook.Hook.{Decoders, Object}
use cloudzero_agent.Webhook.Settings.{Resources, Settings, pod_config, node_config}
use cloudzero_agent.Webhook.Backfiller.Catalog.{BackFillJobDescription}
use cloudzero_agent.Webhook.Backfiller.Await.{max_connection_attempts, await_webhook_service}
use cloudzero_agent.Webhook.Backfiller.Waiting.{await_webhook_service-slept}
use cloudzero_agent.Webhook.Backfiller.Fetch.{Page}
use cloudzero_agent.Webhook.Backfiller.Pages.{Listing}
use cloudzero_agent.Webhook.Backfiller.Walk.{Backfiller, gvk_of, await_services, start}
use cloudzero_agent.Webhook.Backfiller.Posts.{creation}
use cloudzero_agent.Webhook.Review.{AdmissionReview}
use cloudzero_agent.Webhook.Backfiller.Visits.{start-refused}

abbrev resources : Resources
resources = record {
  pods = true;
  namespaces = true;
  deployments = false;
  jobs = false;
  cron_jobs = false;
  stateful_sets = false;
  daemon_sets = false;
  nodes = true;
}

abbrev settings : Settings
settings = record {
  labels = record { enabled = true; resources = resources };
  annotations = record { enabled = false; resources = resources };
  label_matches = (λ key. key == "app") ∷ [];
  annotation_matches = [];
  sanitize = λ text. text;
}

abbrev named : String → String → Object
named t name = record {
  go_type = t;
  object = record { name = name; object_namespace = "shop"; labels = []; annotations = [] };
}

abbrev last_page : String → String → Page
last_page t name = record { items = named t name ∷ []; next = "" }

-- Only the accessor of the pods scans.
abbrev accessor_for : String → Accessor
accessor_for kind =
    if kind == "pod"
    then pod_config settings
    else record (pod_config settings) { labels_enabled = false; annotations_enabled = false }

abbrev pods_page : Page
pods_page = last_page "corev1.Pod" "web-1"

abbrev cluster : Backfiller
cluster = record {
  disable_wait = true;
  validates = λ i. true;
  can_marshal = true;
  can_request = true;
  responds = λ i. some 200;
  jitter = λ i. 0;
  pagination_limit = 500;
  list_nodes = λ i o. if ltb i 1 then none else some (last_page "corev1.Node" "node-1");
  list_namespaces = λ o. some (last_page "corev1.Namespace" "shop");
  list = λ g v k n o. some pods_page;
  node_accessor = node_config settings;
  get_configuration_accessor = λ g v k. some (accessor_for k);
  encode = λ o. some "{}";
  new_id = λ o. "id";
}

abbrev pages : BackFillJobDescription → String → Listing
pages t n = record { first = pods_page; others = [] }

abbrev pod_task : BackFillJobDescription
pod_task = record {
  group = "";
  version = "v1";
  kind = "pod";
  object_type = "corev1.Pod";
  is_namespaced = true;
}

abbrev of_web : AdmissionReview
of_web = creation cluster (gvk_of pod_task) "{}" (named "corev1.Pod" "web-1")

abbrev refusing : Backfiller
refusing = record cluster { list_nodes = λ i o. none }

refusing_await : await_services refusing ≡ ok true
unfolding await_services
refusing_await = refl

start-refused_example : start 1000 refusing ≡ none
start-refused_example = start-refused 1000 refusing refusing_await refl (λ i. refl)

abbrev decoders : Decoders
decoders = record {
  decode = λ t raw. ok (named t raw).object;
  universal = λ raw. none;
  unstructured = λ raw. none;
}

await_webhook_service-slept_example :
    (await_webhook_service (λ i. false) (λ i. 999) max_connection_attempts).slept < 1033 * 1000
await_webhook_service-slept_example =
    await_webhook_service-slept (λ i. false) (λ i. 999) (λ i. omega arith)
