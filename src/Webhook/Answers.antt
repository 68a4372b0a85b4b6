-- ===== src/Webhook/Answers.antt =====
-- What the handlers of the webhook answer.
use cloudzero_agent.Base.{
  String, Bool, true, false, Option, none, some, List, Result, ok, err, Option-cases, inl, inr, not,
  ◌&&◌, ◌≡◌, refl, arith,
}
use cloudzero_agent.Pusher.Record.{ResourceTags}
use cloudzero_agent.Webhook.Format.{Accessor, KubernetesObject}
use cloudzero_agent.Webhook.Repository.{Write, admit_panics-writes}
use cloudzero_agent.Webhook.Review.{
  AdmissionReviewOp, operation_unknown, operation_create, operation_update, operation_delete,
  operation_connect, AdmissionReview,
}
use cloudzero_agent.Webhook.Hook.{
  Object, Outcome, AdmitFunc, Handler, raw_object, middleware, dispatch, execute_object, execute,
  Decoders, allow_always, admit_func, new_generic_handler, new_class_handler,
}
use cloudzero_agent.Webhook.Controller.{default_handler}

-- No panic, no error, and the request is admitted.
abbrev pub is_allowed : Outcome → Bool
is_allowed o = not o.panicked && elim o.response [ ok response ↦ response.allowed | err e ↦ false ]

abbrev Admits : Option AdmitFunc → Type 0
Admits f =
    (w : Write) (r : AdmissionReview) (o : Object) (rows : List ResourceTags)
    → w.can_write ≡ true
    → is_allowed (middleware f w r o rows) ≡ true

-- A handler that refuses nothing while the database takes its writes.
pub record AlwaysAdmits (h : Handler) : Type 0 where
  pub creates : Admits h.on_create
  pub updates : Admits h.on_update
  pub deletes : Admits h.on_delete
  pub connects : Admits h.on_connect

dispatch-allowed :
    (h : Handler) (op : AdmissionReviewOp) (w : Write) (r : AdmissionReview) (o : Object)
    (rows : List ResourceTags)
    → AlwaysAdmits h
    → w.can_write ≡ true
    → is_allowed (dispatch h op w r o rows) ≡ true
unfolding dispatch
dispatch-allowed h operation_create w r o rows a c = a.creates w r o rows c
dispatch-allowed h operation_update w r o rows a c = a.updates w r o rows c
dispatch-allowed h operation_delete w r o rows a c = a.deletes w r o rows c
dispatch-allowed h operation_connect w r o rows a c = a.connects w r o rows c
dispatch-allowed h operation_unknown w r o rows a c = refl

execute_object-allowed :
    (h : Handler) (w : Write) (r : AdmissionReview) (rows : List ResourceTags)
    (made : Result String (Option Object))
    → AlwaysAdmits h
    → w.can_write ≡ true
    → is_allowed (execute_object h w r rows made) ≡ true
unfolding execute_object
execute_object-allowed h w r rows (err e) a c = refl
execute_object-allowed h w r rows (ok none) a c = refl
execute_object-allowed h w r rows (ok (some o)) a c = dispatch-allowed h r.operation w r o rows a c

pub execute-allowed :
    (h : Handler) (w : Write) (r : AdmissionReview) (rows : List ResourceTags)
    → AlwaysAdmits h
    → w.can_write ≡ true
    → is_allowed (execute h w r rows) ≡ true
unfolding execute
execute-allowed h w r rows a c = elim (Option-cases h.object_creator) [
  | inl e ↦ rw e refl
  | inr (new_object, e) ↦
      rw e (execute_object-allowed h w r rows (new_object (raw_object r.operation r)) a c)
]

admit_func-allowed :
    (c : String) (a : Accessor) (f : Accessor → KubernetesObject → ResourceTags) (w : Write)
    (r : AdmissionReview) (o : Object) (rows : List ResourceTags)
    → w.can_write ≡ true
    → is_allowed (admit_func c a f w r o rows) ≡ true
unfolding admit_func
admit_func-allowed c a f w r o rows h = ground (arith, admit_panics-writes w a f o.object rows h)

pub new_generic_handler-AlwaysAdmits :
    (d : Decoders) (c t : String) (a : Accessor) (f : Accessor → KubernetesObject → ResourceTags)
    → AlwaysAdmits (new_generic_handler d c t a f)
unfolding new_generic_handler middleware allow_always
new_generic_handler-AlwaysAdmits d c t a f = record {
  creates = λ w r o rows h. admit_func-allowed c a f w r o rows h;
  updates = λ w r o rows h. admit_func-allowed c a f w r o rows h;
  deletes = λ w r o rows h. admit_func-allowed c a f w r o rows h;
  connects = λ w r o rows h. refl;
}

pub new_class_handler-AlwaysAdmits :
    (d : Decoders) (t : String) (a : Accessor) → AlwaysAdmits (new_class_handler d t a)
unfolding new_class_handler middleware allow_always
new_class_handler-AlwaysAdmits d t a = record {
  creates = λ w r o rows h. refl;
  updates = λ w r o rows h. refl;
  deletes = λ w r o rows h. refl;
  connects = λ w r o rows h. refl;
}

pub default_handler-AlwaysAdmits : (d : Decoders) → AlwaysAdmits (default_handler d)
unfolding default_handler middleware allow_always
default_handler-AlwaysAdmits d = record {
  creates = λ w r o rows h. refl;
  updates = λ w r o rows h. refl;
  deletes = λ w r o rows h. refl;
  connects = λ w r o rows h. refl;
}
