-- ===== src/Tests/Admission.antt =====
-- A pod, a body and a review of it.
use cloudzero_agent.Base.{
  String, true, false, none, some, [], ◌∷◌, ok, ◌==◌, ◌&&◌, if◌then◌else◌, ◌≡◌, refl, arith,
}
use cloudzero_agent.Pusher.Record.{ResourceTags}
use cloudzero_agent.Webhook.Format.{KubernetesObject, namespace_data_formatter, pod_data_formatter}
use cloudzero_agent.Webhook.Repository.{write_panics, Write, find_first}
use cloudzero_agent.Webhook.Storage.{Describes}
use cloudzero_agent.Webhook.Review.{
  create, v1, AdmissionRequest, OriginalReview, AdmissionReview, model_review,
}
use cloudzero_agent.Webhook.Hook.{execute, Decoders, Handler, new_generic_handler}
use cloudzero_agent.Webhook.Settings.{Resources, Settings, namespace_config, pod_config}
use cloudzero_agent.Webhook.Controller.{
  processor, register, find_handler, WebhookController, new_webhook_factory, review,
}
use cloudzero_agent.Webhook.Admission.{find_handler-register}
use cloudzero_agent.Webhook.Answers.{is_allowed}
use cloudzero_agent.Webhook.Factory.{review-allowed}
use cloudzero_agent.Webhook.Recording.{review-Describes}
use cloudzero_agent.Webhook.Serve.{HttpRequest, Server, post_admission_request}
use cloudzero_agent.Webhook.Replies.{allowing, body_or_minimal, post_admission_request-admits}

abbrev resources : Resources
resources = record {
  pods = true;
  namespaces = true;
  deployments = false;
  jobs = false;
  cron_jobs = false;
  stateful_sets = false;
  daemon_sets = false;
  nodes = false;
}

abbrev settings : Settings
settings = record {
  labels = record { enabled = true; resources = resources };
  annotations = record { enabled = false; resources = resources };
  label_matches = (λ key. key == "app") ∷ [];
  annotation_matches = [];
  sanitize = λ text. text;
}

abbrev web_pod : KubernetesObject
web_pod = record {
  name = "web-1";
  object_namespace = "shop";
  labels = ("app", "web") ∷ [];
  annotations = [];
}

-- Every text decodes to the same pod, and to nothing without a type.
abbrev decoders : Decoders
decoders = record {
  decode = λ t raw. ok web_pod;
  universal = λ raw. none;
  unstructured = λ raw. none;
}

abbrev request : AdmissionRequest
request = record {
  uid = "u-1";
  name = "web-1";
  request_namespace = "shop";
  operation = create;
  kind = record { group = ""; version = "v1"; kind = "pod" };
  request_kind = none;
  resource = record { group = ""; version = "v1"; kind = "pods" };
  request_resource = none;
  object_raw = "{}";
  old_object_raw = "";
  dry_run = none;
  user_info = "";
}

abbrev pod_review : AdmissionReview
pod_review = model_review v1 request

abbrev write : Write
write = record { now = 3; next_id = "id-1"; can_search = true; can_write = true }

abbrev same_text : String → String
same_text text = text

abbrev pod_handler : Handler
pod_handler =
    new_generic_handler decoders "corev1.Pod" "corev1.Pod" (pod_config settings) pod_data_formatter

abbrev controller : WebhookController
controller = record {
  default_handler = pod_handler;
  dispatch = register "" "v1" "pod" pod_handler [];
}

find_handler-register_example :
    find_handler "" "v1" "pod" (register "" "v1" "node" pod_handler controller.dispatch) ≡ (
      if "" == "" && "v1" == "v1" && "node" == "pod"
      then some pod_handler
      else find_handler "" "v1" "pod" controller.dispatch)
find_handler-register_example =
    find_handler-register "" "v1" "node" pod_handler controller.dispatch "" "v1" "pod"

review-allowed_example :
    is_allowed (review same_text (new_webhook_factory decoders settings) write pod_review []) ≡ true
review-allowed_example = review-allowed same_text decoders settings write pod_review [] refl

pod_handler_found : find_handler "" "v1" "pod" controller.dispatch ≡ some pod_handler
pod_handler_found = find_handler-register "" "v1" "pod" pod_handler [] "" "v1" "pod"

review-Describes_example :
    (row : ResourceTags) × (find_first
        (pod_data_formatter (pod_config settings) web_pod)
        (review same_text controller write pod_review []).rows
      ≡ some row)
    × Describes (pod_data_formatter (pod_config settings) web_pod) row
    × (row.sent_at ≡ none)
unfolding pod_data_formatter
review-Describes_example =
    review-Describes decoders "corev1.Pod" (pod_config settings) pod_data_formatter write []
      same_text controller pod_review web_pod pod_handler_found refl refl refl refl refl refl refl

abbrev original : OriginalReview
original = record { version = v1; request = some request }

abbrev server : Server
server = record {
  decode = λ body. ok (some original);
  marshal = λ r. some r.uid;
  review = review same_text controller;
  reconnect_frequency = 2;
}

abbrev posted : HttpRequest
posted = record {
  timeout = none;
  content_type = "application/json";
  body = ok "{}";
  body_length = 2;
  is_http_1 = true;
  random_number = 1;
}

-- The database refuses a record without a namespace.
namespace_write_panics :
    write_panics
      (record write { can_write = false })
      (namespace_data_formatter (namespace_config settings) web_pod)
      []
    ≡ true
unfolding write_panics namespace_data_formatter
namespace_write_panics = refl

server_is_calm : (server.review write (model_review v1 request) []).panicked ≡ false
unfolding review processor execute register new_generic_handler
server_is_calm = refl

post_admission_request-admits_example :
    (post_admission_request server posted write []).reply
    ≡ body_or_minimal (server.marshal (allowing v1 request))
post_admission_request-admits_example =
    post_admission_request-admits server posted write [] "{}" original request refl refl refl
      (omega arith) refl refl server_is_calm
