-- ===== src/Webhook/Review.antt =====
-- app/types/review.go: a review of the API server, in both versions, and what the agent makes of it.
-- Bytes and the user are texts; the two requests of Kubernetes have the same fields.
use cloudzero_agent.Base.{String, Bool, false, Option, none, some, List}

-- `metav1.GroupVersionKind`, and `GroupVersionResource` with the resource for the kind.
pub record GroupVersionKind : Type 0 where
  pub group : String
  pub version : String
  pub kind : String

-- The operations of Kubernetes: CREATE, UPDATE, DELETE, CONNECT and other texts.
pub data KubernetesOperation : Type 0 where
  create update delete connect : KubernetesOperation
  other : String → KubernetesOperation

-- `AdmissionReviewOp`
pub data AdmissionReviewOp : Type 0 where
  operation_unknown operation_create operation_update : AdmissionReviewOp
  operation_delete operation_connect : AdmissionReviewOp

pub data AdmissionReviewVersion : Type 0 where
  v1beta1 v1 : AdmissionReviewVersion

-- What the agent reads of the request inside a review.
pub record AdmissionRequest : Type 0 where
  pub uid : String
  pub name : String
  pub request_namespace : String
  pub operation : KubernetesOperation
  pub kind : GroupVersionKind
  pub request_kind : Option GroupVersionKind
  pub resource : GroupVersionKind
  pub request_resource : Option GroupVersionKind
  pub object_raw : String
  pub old_object_raw : String
  pub dry_run : Option Bool
  pub user_info : String

-- A decoded body; the request can be missing.
pub record OriginalReview : Type 0 where
  pub version : AdmissionReviewVersion
  pub request : Option AdmissionRequest

-- `AdmissionReview`
pub record AdmissionReview : Type 0 where
  pub original : Option OriginalReview
  pub id : String
  pub name : String
  pub review_namespace : String
  pub operation : AdmissionReviewOp
  pub version : AdmissionReviewVersion
  pub request_gvr : Option GroupVersionKind
  pub request_gvk : GroupVersionKind
  pub old_object_raw : String
  pub new_object_raw : String
  pub dry_run : Bool
  pub user_info : String

-- `AdmissionResponse`
pub record AdmissionResponse : Type 0 where
  pub id : String
  pub allowed : Bool
  pub message : String
  pub warnings : List String

abbrev pub operation_to_model : KubernetesOperation → AdmissionReviewOp
operation_to_model create = operation_create
operation_to_model update = operation_update
operation_to_model delete = operation_delete
operation_to_model connect = operation_connect
operation_to_model (other text) = operation_unknown

abbrev or_given : GroupVersionKind → Option GroupVersionKind → GroupVersionKind
or_given given none = given
or_given given (some requested) = requested

abbrev pub kind_to_model : AdmissionRequest → GroupVersionKind
kind_to_model r = or_given r.kind r.request_kind

abbrev pub resource_to_model : AdmissionRequest → GroupVersionKind
resource_to_model r = or_given r.resource r.request_resource

abbrev is_dry_run : Option Bool → Bool
is_dry_run none = false
is_dry_run (some b) = b

-- The body that both conversions have.
abbrev pub model_review : AdmissionReviewVersion → AdmissionRequest → AdmissionReview
model_review version r = record {
  original = some (record { version = version; request = some r });
  id = r.uid;
  name = r.name;
  review_namespace = r.request_namespace;
  operation = operation_to_model r.operation;
  version = version;
  request_gvr = some (resource_to_model r);
  request_gvk = kind_to_model r;
  old_object_raw = r.old_object_raw;
  new_object_raw = r.object_raw;
  dry_run = is_dry_run r.dry_run;
  user_info = r.user_info;
}

-- `NewAdmissionReviewV1Beta1` and `NewAdmissionReviewV1`; without a request they panic, which is `none`.
abbrev pub new_admission_review : OriginalReview → Option AdmissionReview
new_admission_review ar = elim ar.request [
  | none ↦ none
  | some r ↦ some (model_review ar.version r)
]
