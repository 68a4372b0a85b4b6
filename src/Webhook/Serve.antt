-- ===== src/Webhook/Serve.antt =====
-- `PostAdmissionRequest` of app/handlers/webhook.go. Times are nanoseconds; reading the body, decoding
-- and the marshalling to JSON are parameters.
use cloudzero_agent.Base.{
  ℕ, ◌*◌, String, Bool, false, Option, none, some, List, [], Result, ok, err, ltb, eqb, not, ◌&&◌,
  ◌==◌, ◌++ₛ◌, if◌then◌else◌,
}
use cloudzero_agent.Pusher.Record.{ResourceTags}
use cloudzero_agent.Webhook.Repository.{Write}
use cloudzero_agent.Webhook.Review.{
  AdmissionReviewVersion, v1beta1, v1, OriginalReview, AdmissionReview, AdmissionResponse,
  new_admission_review,
}
use cloudzero_agent.Webhook.Hook.{Outcome, allow}

abbrev pub second : ℕ
second = 1000000000

abbrev pub default_timeout : ℕ
default_timeout = 15 * second

abbrev pub min_timeout : ℕ
min_timeout = 5 * second

abbrev pub max_request_body_bytes : ℕ
max_request_body_bytes = 6 * 1024 * 1024

abbrev at_least : ℕ → ℕ → ℕ
at_least low t = if ltb t low then low else t

abbrev at_most : ℕ → ℕ → ℕ
at_most high t = if ltb high t then high else t

-- The deadline for a parameter `timeout`, which can be missing or not a duration. A negative duration
-- counts as 0 here; both are below the minimum.
unfoldable pub deadline : Option (Option ℕ) → ℕ
deadline none = default_timeout
deadline (some none) = default_timeout
deadline (some (some t)) = at_most default_timeout (at_least min_timeout t)

-- The answer to the API server in either version. Warnings are sent in version 1 only.
pub record ResponseReview : Type 0 where
  pub version : AdmissionReviewVersion
  pub uid : String
  pub allowed : Bool
  pub warnings : List String
  pub failure : Option String

-- What the handler writes; a panic leaves the connection to the server.
pub data Reply : Type 0 where
  bad_request : String → Reply
  allowed_body : String → Reply
  panic : Reply

abbrev warnings_in : AdmissionReviewVersion → List String → List String
warnings_in v1beta1 warnings = []
warnings_in v1 warnings = warnings

-- What `marshallResponseToJSON` marshals; a review that no body was decoded to has no version.
unfoldable pub response_review : AdmissionReview → AdmissionResponse → Option ResponseReview
response_review review resp = elim review.original [
  | none ↦ none
  | some original ↦ some (record {
    version = original.version;
    uid = review.id;
    allowed = resp.allowed;
    warnings = warnings_in original.version resp.warnings;
    failure = if resp.allowed then none else some resp.message;
  })
]

unfoldable pub marshall_response_to_json :
    (ResponseReview → Option String) → AdmissionReview → AdmissionResponse → Option String
unfolding response_review
marshall_response_to_json marshal review resp = elim (response_review review resp) [
  | none ↦ none
  | some r ↦ marshal r
]

abbrev pub minimal_allow_response : String
minimal_allow_response = "{\"response\":{\"allowed\":true}}"

-- `sendAllowResponse`
unfoldable pub send_allow_response : (ResponseReview → Option String) → AdmissionReview → Reply
unfolding marshall_response_to_json
send_allow_response marshal review = elim (marshall_response_to_json marshal review (allow "")) [
  | none ↦ allowed_body minimal_allow_response
  | some body ↦ allowed_body body
]

-- What the server sees of a request. `io.ReadAll` reads at most one byte more than the limit.
pub record HttpRequest : Type 0 where
  pub timeout : Option (Option ℕ)
  pub content_type : String
  pub body : Result String String
  pub body_length : ℕ
  pub is_http_1 : Bool
  pub random_number : ℕ

-- The parts that the handler uses, and the settings that it reads.
pub record Server : Type 0 where
  pub decode : String → Result String (Option OriginalReview)
  pub marshal : ResponseReview → Option String
  pub review : Write → AdmissionReview → List ResourceTags → Outcome
  pub reconnect_frequency : ℕ

-- `configReader`
unfoldable pub config_reader : HttpRequest → Result String String
config_reader r = elim r.body [
  | err e ↦ err e
  | ok content ↦
      if ltb max_request_body_bytes r.body_length then err "limit is 6291456" else ok content
]

-- `requestBodyToModelReview`: an error, or the review unless the conversion panics. A body that decodes
-- to another type is `none` of the decoder.
unfoldable pub request_body_to_model_review :
    Server → String → Result String (Option AdmissionReview)
request_body_to_model_review a body = elim (a.decode body) [
  | err e ↦ err ("could not decode the admission review from the request: " ++ₛ e)
  | ok none ↦ err "invalid admission review type"
  | ok (some original) ↦ ok (new_admission_review original)
]

-- What happens to the records, the answer, and whether HTTP 1 is told to connect anew.
pub record Served : Type 0 where
  pub reply : Reply
  pub rows : List ResourceTags
  pub closes : Bool

abbrev refused : String → List ResourceTags → Served
refused message rows = record { reply = bad_request message; rows = rows; closes = false }

-- `rf > 0 && rand.Intn(rf) == 0` for HTTP 1, with the number that `rand.Intn` returns.
abbrev pub closes_connection : Server → HttpRequest → Bool
closes_connection a r = r.is_http_1 && ltb 0 a.reconnect_frequency && eqb r.random_number 0

-- The answer is the same whether the review failed or not, unless it panicked.
unfoldable pub answer_review : Server → HttpRequest → AdmissionReview → Outcome → Served
unfolding send_allow_response
answer_review a r review outcome = record {
  reply = if outcome.panicked then panic else send_allow_response a.marshal review;
  rows = outcome.rows;
  closes =
      not outcome.panicked
      && elim outcome.response [ err e ↦ false | ok response ↦ closes_connection a r ];
}

unfoldable pub serve_review :
    Server
    → HttpRequest
    → Write
    → List ResourceTags
    → Result String (Option AdmissionReview)
    → Served
unfolding answer_review
serve_review a r w rows (err e) = refused ("could not read request body: " ++ₛ e) rows
serve_review a r w rows (ok none) = record { reply = panic; rows = rows; closes = false }
serve_review a r w rows (ok (some review)) = answer_review a r review (a.review w review rows)

-- `PostAdmissionRequest`
unfoldable pub post_admission_request : Server → HttpRequest → Write → List ResourceTags → Served
unfolding config_reader request_body_to_model_review serve_review
post_admission_request a r w rows =
    if r.content_type == "application/json"
    then elim (config_reader r) [
      | err e ↦ refused "failed to read request body" rows
      | ok body ↦
          if body == ""
          then refused "no body in request" rows
          else serve_review a r w rows (request_body_to_model_review a body)
    ]
    else refused "failed to read request body" rows
