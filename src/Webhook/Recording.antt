-- ===== src/Webhook/Recording.antt =====
-- From a review to the table of records: `Review`, `Execute`, `admitFunc` and the write in a row.
use cloudzero_agent.Base.{
  String, Bool, true, false, none, some, List, ◌||◌, eq_refl, if◌then◌else◌, all, ok, ◌≡◌, refl,
}
use cloudzero_agent.Pusher.Record.{ResourceTags}
use cloudzero_agent.Webhook.Format.{Accessor, KubernetesObject}
use cloudzero_agent.Webhook.Repository.{Write, find_first, admit}
use cloudzero_agent.Webhook.Storage.{has_id, Describes, write_data_to_storage-Describes}
use cloudzero_agent.Webhook.Review.{
  AdmissionReviewOp, operation_unknown, operation_create, operation_update, operation_delete,
  operation_connect, AdmissionReview,
}
use cloudzero_agent.Webhook.Hook.{
  Handler, raw_object, middleware, dispatch, execute_object, execute, Decoders, allow_always,
  admit_func, new_static_object, new_generic_handler,
}
use cloudzero_agent.Webhook.Controller.{find_handler, WebhookController, processor, review}
use cloudzero_agent.Webhook.Admission.{registered-find_handler}

-- The operations that a handler records.
abbrev pub is_recorded : AdmissionReviewOp → Bool
is_recorded operation_unknown = false
is_recorded operation_connect = false
is_recorded _ = true

module _ (d : Decoders) (t : String) (a : Accessor) (f : Accessor → KubernetesObject → ResourceTags)
    (w : Write) (rows : List ResourceTags) where
  dispatch-recorded :
      (op : AdmissionReviewOp) (ar : AdmissionReview) (o : KubernetesObject)
      → (dispatch
          (new_generic_handler d t t a f)
          op
          w
          ar
          (record { go_type = t; object = o })
          rows).rows
        ≡ (if is_recorded op then admit w a f o rows else rows)
  unfolding dispatch middleware new_generic_handler admit_func allow_always
  dispatch-recorded operation_unknown ar o = refl
  dispatch-recorded operation_connect ar o = refl
  dispatch-recorded operation_create ar o = rw (eq_refl t) refl
  dispatch-recorded operation_update ar o = rw (eq_refl t) refl
  dispatch-recorded operation_delete ar o = rw (eq_refl t) refl

  new_static_object_decoded :
      (raw : String) (o : KubernetesObject)
      → d.decode t raw ≡ ok o
      → new_static_object d t raw ≡ ok (some (record { go_type = t; object = o }))
  unfolding new_static_object
  new_static_object_decoded raw o e = rw (e, new_static_object) refl

  execute_object-recorded :
      (ar : AdmissionReview) (o : KubernetesObject)
      → (execute_object
          (new_generic_handler d t t a f)
          w
          ar
          rows
          (ok (some (record { go_type = t; object = o })))).rows
        ≡ (if is_recorded ar.operation then admit w a f o rows else rows)
  unfolding execute_object
  execute_object-recorded ar o = dispatch-recorded ar.operation ar o

  execute-recorded :
      (ar : AdmissionReview) (o : KubernetesObject)
      → d.decode t (raw_object ar.operation ar) ≡ ok o
      → (execute (new_generic_handler d t t a f) w ar rows).rows
        ≡ (if is_recorded ar.operation then admit w a f o rows else rows)
  unfolding execute new_generic_handler
  execute-recorded ar o e =
      rw (new_static_object_decoded (raw_object ar.operation ar) o e) (execute_object-recorded ar o)

  processor-found :
      (wc : WebhookController) (g v k : String) (h : Handler)
      → find_handler g v k wc.dispatch ≡ some h
      → processor wc g v k ≡ h
  unfolding processor
  processor-found wc g v k h e = rw (registered-find_handler g v k wc.dispatch, e) refl

  -- When the controller has a generic handler for the kind of a review that creates, updates or deletes
  -- an object, the object can be decoded, its labels or annotations are wanted, the search and the
  -- write succeed, the formatter makes a record that was not sent, and every row has an ID, then the records have a row for the object that waits to be sent, with the labels
  -- and annotations that the formatter keeps.
  pub review-Describes :
      (to_lower : String → String) (wc : WebhookController) (ar : AdmissionReview)
      (o : KubernetesObject)
      → find_handler ar.request_gvk.group ar.request_gvk.version
          (to_lower ar.request_gvk.kind)
          wc.dispatch
        ≡ some (new_generic_handler d t t a f)
      → is_recorded ar.operation ≡ true
      → d.decode t (raw_object ar.operation ar) ≡ ok o
      → (a.labels_enabled_for_type || a.annotations_enabled_for_type) ≡ true
      → w.can_write ≡ true
      → w.can_search ≡ true
      → (f a o).sent_at ≡ none
      → all has_id rows ≡ true
      → (row : ResourceTags) × (find_first (f a o) (review to_lower wc w ar rows).rows ≡ some row)
        × Describes (f a o) row
        × (row.sent_at ≡ none)
  unfolding review admit
  review-Describes to_lower wc ar o found op e wanted cw cs unsent h =
      rw
        (
          processor-found wc ar.request_gvk.group ar.request_gvk.version
              (to_lower ar.request_gvk.kind) (new_generic_handler d t t a f) found,
          execute-recorded ar o e,
          op,
          wanted,
        )
        (write_data_to_storage-Describes w (f a o) rows cw cs unsent h)
