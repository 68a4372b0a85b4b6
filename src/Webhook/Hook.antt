-- ===== src/Webhook/Hook.antt =====
-- app/domain/webhook/hook/hook.go, `NewObject` of app/domain/webhook/helper/helper.go and the
-- handlers of app/domain/webhook/handler: what a handler does with a review. The store is the table
-- of records; the counters of the classes are left out. Decoding is a parameter.
use cloudzero_agent.Base.{
  String, Bool, true, false, Option, none, some, List, [], Result, ok, err, ◌&&◌, ◌==◌, ◌++ₛ◌,
  if◌then◌else◌,
}
use cloudzero_agent.Pusher.Record.{ResourceTags}
use cloudzero_agent.Webhook.Format.{Accessor, KubernetesObject}
use cloudzero_agent.Webhook.Repository.{Write, admit, admit_panics}
use cloudzero_agent.Webhook.Review.{
  AdmissionReviewOp, operation_unknown, operation_create, operation_update, operation_delete,
  operation_connect, AdmissionReview, AdmissionResponse,
}

-- An object and its type in Go.
pub record Object : Type 0 where
  pub go_type : String
  pub object : KubernetesObject

-- What a handler returns, the records afterwards, and whether it panicked before it returned.
pub record Outcome : Type 0 where
  pub response : Result String AdmissionResponse
  pub rows : List ResourceTags
  pub panicked : Bool

abbrev pub AdmitFunc : Type 0
AdmitFunc = Write → AdmissionReview → Object → List ResourceTags → Outcome

-- `ObjectCreator`: an error, or an object unless it is not a `metav1.Object`.
abbrev pub ObjectCreator : Type 0
ObjectCreator = String → Result String (Option Object)

pub record Handler : Type 0 where
  pub accessor : Option Accessor
  pub object_creator : Option ObjectCreator
  pub on_create : Option AdmitFunc
  pub on_delete : Option AdmitFunc
  pub on_update : Option AdmitFunc
  pub on_connect : Option AdmitFunc

abbrev pub allow : String → AdmissionResponse
allow message = record { id = ""; allowed = true; message = message; warnings = [] }

unfoldable pub allow_always : AdmitFunc
allow_always w r o rows = record { response = ok (allow ""); rows = rows; panicked = false }

abbrev pub operation_text : AdmissionReviewOp → String
operation_text operation_unknown = "unknown"
operation_text operation_create = "create"
operation_text operation_update = "update"
operation_text operation_delete = "delete"
operation_text operation_connect = "connect"

unfoldable pub middleware : Option AdmitFunc → AdmitFunc
middleware none w r o rows = record {
  response = err ("operation " ++ₛ operation_text r.operation ++ₛ " is not registered");
  rows = rows;
  panicked = false;
}
middleware (some fn) w r o rows = fn w r o rows

abbrev pub raw_object : AdmissionReviewOp → AdmissionReview → String
raw_object operation_delete r = r.old_object_raw
raw_object _ r = r.new_object_raw

-- The switch of `Execute`.
unfoldable pub dispatch : Handler → AdmissionReviewOp → AdmitFunc
unfolding middleware
dispatch h operation_create w r o rows = middleware h.on_create w r o rows
dispatch h operation_update w r o rows = middleware h.on_update w r o rows
dispatch h operation_delete w r o rows = middleware h.on_delete w r o rows
dispatch h operation_connect w r o rows = middleware h.on_connect w r o rows
dispatch h operation_unknown w r o rows = record {
  response = ok (allow "Invalid operation: unknown");
  rows = rows;
  panicked = false;
}

unfoldable pub execute_object :
    Handler → Write → AdmissionReview → List ResourceTags → Result String (Option Object) → Outcome
unfolding dispatch
execute_object h w r rows (err e) = record {
  response =
      ok (
        allow ("Unable to create object from raw: " ++ₛ operation_text r.operation ++ₛ ": " ++ₛ e));
  rows = rows;
  panicked = false;
}
execute_object h w r rows (ok none) = record {
  response = ok (allow "Impossible to type assert the deep copy to metav1.Object");
  rows = rows;
  panicked = false;
}
execute_object h w r rows (ok (some o)) = dispatch h r.operation w r o rows

-- `Execute`
unfoldable pub execute : Handler → Write → AdmissionReview → List ResourceTags → Outcome
unfolding execute_object
execute h w r rows = elim h.object_creator [
  | none ↦ record {
    response = ok (allow ("no object creator: " ++ₛ operation_text r.operation));
    rows = rows;
    panicked = false;
  }
  | some new_object ↦ execute_object h w r rows (new_object (raw_object r.operation r))
]

-- What the API machinery makes of bytes, for a type in Go or without one.
pub record Decoders : Type 0 where
  pub decode : String → String → Result String KubernetesObject
  pub universal : String → Option Object
  pub unstructured : String → Option Object

-- `NewObject` of the static creator.
unfoldable pub new_static_object : Decoders → String → ObjectCreator
new_static_object d go_type raw = elim (d.decode go_type raw) [
  | ok o ↦ ok (some (record { go_type = go_type; object = o }))
  | err e ↦ err ("error deseralizing request raw object: " ++ₛ e)
]

-- `NewObject` of the dynamic creator.
unfoldable pub new_dynamic_object : Decoders → ObjectCreator
new_dynamic_object d raw = elim (d.universal raw) [
  | some o ↦ ok (some o)
  | none ↦ elim (d.unstructured raw) [
    | some o ↦ ok (some o)
    | none ↦ err "could not type assert metav1.Object and runtime.Object"
  ]
]

-- `admitFunc` of `GenericHandler[T]`.
unfoldable pub admit_func :
    String → Accessor → (Accessor → KubernetesObject → ResourceTags) → AdmitFunc
unfolding admit admit_panics
admit_func cast_type a format_data w r o rows = record {
  response = ok (allow "");
  rows = if o.go_type == cast_type then admit w a format_data o.object rows else rows;
  panicked = o.go_type == cast_type && admit_panics w a format_data o.object rows;
}

-- `NewGenericHandler[T]` for a template of a type.
unfoldable pub new_generic_handler :
    Decoders → String → String → Accessor → (Accessor → KubernetesObject → ResourceTags) → Handler
unfolding admit_func new_static_object allow_always
new_generic_handler d cast_type template_type a format_data = record {
  accessor = some a;
  object_creator = some (new_static_object d template_type);
  on_create = some (admit_func cast_type a format_data);
  on_update = some (admit_func cast_type a format_data);
  on_delete = some (admit_func cast_type a format_data);
  on_connect = some allow_always;
}

-- The handlers of the classes: their `Create` only counts.
unfoldable pub new_class_handler : Decoders → String → Accessor → Handler
unfolding new_static_object allow_always
new_class_handler d template_type a = record {
  accessor = some a;
  object_creator = some (new_static_object d template_type);
  on_create = some allow_always;
  on_update = some allow_always;
  on_delete = some allow_always;
  on_connect = some allow_always;
}
