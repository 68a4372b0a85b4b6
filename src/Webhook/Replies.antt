-- ===== src/Webhook/Replies.antt =====
-- What the API server reads in the answers of `PostAdmissionRequest`.
use cloudzero_agent.Base.{
  ℕ, ◌≤◌, String, true, false, Option, none, some, List, [], ok, ltb, ◌==◌, Option-cases, inl, inr,
  ◌≡◌, refl, arith,
}
use cloudzero_agent.Pusher.Record.{ResourceTags}
use cloudzero_agent.Webhook.Repository.{Write}
use cloudzero_agent.Webhook.Review.{
  AdmissionReviewVersion, v1beta1, v1, AdmissionRequest, OriginalReview, model_review,
}
use cloudzero_agent.Webhook.Hook.{allow}
use cloudzero_agent.Webhook.Serve.{
  default_timeout, min_timeout, max_request_body_bytes, deadline, ResponseReview, Reply,
  allowed_body, response_review, marshall_response_to_json, minimal_allow_response,
  send_allow_response, HttpRequest, Server, config_reader, request_body_to_model_review,
  answer_review, serve_review, post_admission_request,
}

-- A deadline is between 5 and 15 seconds, whatever the request asks for.
pub deadline-bounds :
    (timeout : Option (Option ℕ))
    → (min_timeout ≤ deadline timeout) × (deadline timeout ≤ default_timeout)
unfolding deadline
deadline-bounds none = (omega arith, omega arith)
deadline-bounds (some none) = (omega arith, omega arith)
deadline-bounds (some (some t)) = ground arith

-- The answer to a request, in its version and with its ID.
abbrev pub allowing : AdmissionReviewVersion → AdmissionRequest → ResponseReview
allowing version request = record {
  version = version;
  uid = request.uid;
  allowed = true;
  warnings = [];
  failure = none;
}

abbrev pub body_or_minimal : Option String → Reply
body_or_minimal none = allowed_body minimal_allow_response
body_or_minimal (some body) = allowed_body body

marshall_response_to_json_lem :
    (marshal : ResponseReview → Option String) (version : AdmissionReviewVersion)
    (r : AdmissionRequest)
    → marshall_response_to_json marshal (model_review version r) (allow "")
      ≡ marshal (allowing version r)
unfolding marshall_response_to_json response_review
marshall_response_to_json_lem marshal v1beta1 r = refl
marshall_response_to_json_lem marshal v1 r = refl

send_allow_response_lem :
    (marshal : ResponseReview → Option String) (version : AdmissionReviewVersion)
    (r : AdmissionRequest)
    → send_allow_response marshal (model_review version r)
      ≡ body_or_minimal (marshal (allowing version r))
unfolding send_allow_response
send_allow_response_lem marshal version r = elim (Option-cases (marshal (allowing version r))) [
  | inl e ↦ rw (marshall_response_to_json_lem marshal version r, e, send_allow_response) refl
  | inr (body, e) ↦
      rw (marshall_response_to_json_lem marshal version r, e, send_allow_response) refl
]

request_body_to_model_review_lem :
    (a : Server) (body : String) (original : OriginalReview) (request : AdmissionRequest)
    → a.decode body ≡ ok (some original)
    → original.request ≡ some request
    → request_body_to_model_review a body ≡ ok (some (model_review original.version request))
unfolding request_body_to_model_review
request_body_to_model_review_lem a body original request decoded q =
    rw (decoded, request_body_to_model_review, q) refl

-- A JSON body that is read whole, not empty, within the limit, and that decodes to a review with a
-- request is answered with the review of its version that has the ID of the request and admits it, or,
-- if that cannot be marshalled, with the minimal text that admits it: whatever the controller returns
-- unless it panics, a refusal and an error included.
pub post_admission_request-admits :
    (a : Server) (r : HttpRequest) (w : Write) (rows : List ResourceTags) (body : String)
    (original : OriginalReview) (request : AdmissionRequest)
    → (r.content_type == "application/json") ≡ true
    → r.body ≡ ok body
    → (body == "") ≡ false
    → r.body_length ≤ max_request_body_bytes
    → a.decode body ≡ ok (some original)
    → original.request ≡ some request
    → (a.review w (model_review original.version request) rows).panicked ≡ false
    → (post_admission_request a r w rows).reply
      ≡ body_or_minimal (a.marshal (allowing original.version request))
unfolding post_admission_request config_reader serve_review answer_review
post_admission_request-admits a r w rows body original request json e nonempty fits decoded q calm =
    let small : ltb max_request_body_bytes r.body_length ≡ false = ground arith in
    rw
      (
        json,
        e,
        small,
        nonempty,
        request_body_to_model_review_lem a body original request decoded q,
        calm,
      )
      (send_allow_response_lem a.marshal original.version request)
