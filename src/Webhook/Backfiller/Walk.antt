-- ===== src/Webhook/Backfiller/Walk.antt =====
-- `Start` of app/domain/webhook/backfiller/backfiller.go. The client of Kubernetes, the encoding of
-- an object and the random IDs are parameters. The pages of a list are fetched before what they hold
-- is reviewed; the client's answers do not depend on the reviews.
use cloudzero_agent.Base.{
  ℕ, String, Bool, true, false, Option, none, some, List, [], ◌∷◌, ◌++◌, map, not, ◌&&◌, ◌||◌, ◌==◌,
  Result, ok, err, if◌then◌else◌,
}
use cloudzero_agent.Webhook.Format.{Accessor}
use cloudzero_agent.Webhook.Review.{GroupVersionKind, AdmissionReview, v1, operation_create}
use cloudzero_agent.Webhook.Hook.{Object}
use cloudzero_agent.Webhook.Backfiller.Catalog.{BackFillJobDescription, catalog}
use cloudzero_agent.Webhook.Backfiller.Fetch.{
  ListOptions, Page, Fetched, and_then, map_some, fetch, fetch_nodes,
}
use cloudzero_agent.Webhook.Backfiller.Await.{
  max_connection_attempts, await_webhook_service, await_collector_service,
}

-- What the walk uses: the services as they answer, the client, the accessors of the controller.
pub record Backfiller : Type 0 where
  pub disable_wait : Bool
  pub validates : ℕ → Bool
  pub can_marshal : Bool
  pub can_request : Bool
  pub responds : ℕ → Option ℕ
  pub jitter : ℕ → ℕ
  pub pagination_limit : ℕ
  pub list_nodes : ℕ → ListOptions → Option Page
  pub list_namespaces : ListOptions → Option Page
  pub list : String → String → String → Option String → ListOptions → Option Page
  pub node_accessor : Accessor
  pub get_configuration_accessor : String → String → String → Option Accessor
  pub encode : Object → Option String
  pub new_id : Object → String

-- `buildAdmissionReview`
unfoldable pub build_admission_review :
    Backfiller → GroupVersionKind → Object → Option AdmissionReview
build_admission_review b gvk o = elim (b.encode o) [
  | none ↦ none
  | some raw ↦ some (record {
    original = none;
    id = b.new_id o;
    name = o.object.name;
    review_namespace = o.object.object_namespace;
    operation = operation_create;
    version = v1;
    request_gvr = none;
    request_gvk = gvk;
    old_object_raw = "";
    new_object_raw = raw;
    dry_run = false;
    user_info = "";
  })
]

abbrev pub if_some {ℓ} : {A : Type ℓ} → Option A → List A → List A
if_some none rest = rest
if_some (some a) rest = a ∷ rest

-- The reviews of some objects, which are skipped if they cannot be encoded.
unfoldable pub reviews_of : Backfiller → GroupVersionKind → List Object → List AdmissionReview
unfolding build_admission_review
reviews_of b gvk [] = []
reviews_of b gvk (o ∷ os) = if_some (build_admission_review b gvk o) (reviews_of b gvk os)

-- The objects that `Convert` does not turn into nil.
unfoldable pub converted : String → List Object → List Object
converted t [] = []
converted t (o ∷ os) = let rest = converted t os in if o.go_type == t then o ∷ rest else rest

abbrev pub options : Backfiller → String → ListOptions
options b cursor = record { limit = b.pagination_limit; continue = cursor }

abbrev pub node_kind : GroupVersionKind
node_kind = record { group = ""; version = "v1"; kind = "node" }

abbrev pub namespace_kind : GroupVersionKind
namespace_kind = record { group = ""; version = "v1"; kind = "namespace" }

-- `enumerateNodes`
unfoldable pub enumerate_nodes : ℕ → Backfiller → Option (List AdmissionReview)
unfolding fetch_nodes reviews_of
enumerate_nodes fuel b =
    if not b.node_accessor.labels_enabled_for_type
      && not b.node_accessor.annotations_enabled_for_type
    then some []
    else map_some (reviews_of b node_kind)
        (fetch_nodes fuel (λ attempt cursor. b.list_nodes attempt (options b cursor)) 0 "")

abbrev pub scans : Accessor → Bool
scans a =
    (a.labels_enabled && a.labels_enabled_for_type)
    || (a.annotations_enabled && a.annotations_enabled_for_type)

abbrev pub if_scanned :
    BackFillJobDescription → Accessor → List BackFillJobDescription → List BackFillJobDescription
if_scanned t a rest = if scans a then t ∷ rest else rest

-- The tasks that are not skipped; `none` is the panic of a task without an accessor.
unfoldable pub enabled_tasks :
    (String → String → String → Option Accessor)
    → List BackFillJobDescription
    → Option (List BackFillJobDescription)
enabled_tasks accessors [] = some []
enabled_tasks accessors (t ∷ ts) =
    let rest = enabled_tasks accessors ts in
    elim (accessors t.group t.version t.kind) [
      | none ↦ none
      | some a ↦ map_some (if_scanned t a) rest
    ]

-- A function that is given to the pool.
pub data Job : Type 0 where
  review_namespace : Object → Job
  scan : BackFillJobDescription → String → Job

abbrev pub jobs_for : List BackFillJobDescription → Object → List Job
jobs_for tasks o = review_namespace o ∷ map (λ t. scan t o.object.name) tasks

-- The functions given to the pool, whose workers run them in any order.
unfoldable pub all_jobs : List BackFillJobDescription → List Object → List Job
all_jobs tasks [] = []
all_jobs tasks (o ∷ os) = jobs_for tasks o ++ all_jobs tasks os

-- `task.List` with the limit of the settings.
abbrev pub list_task : Backfiller → BackFillJobDescription → String → String → Option Page
list_task b t namespace cursor =
    b.list t.group t.version t.kind (if t.is_namespaced then some namespace else none)
      (options b cursor)

abbrev pub gvk_of : BackFillJobDescription → GroupVersionKind
gvk_of t = record { group = t.group; version = t.version; kind = t.kind }

-- The reviews that a job posts; a list that fails ends it.
unfoldable pub run_job : ℕ → Backfiller → Job → Option (List AdmissionReview)
unfolding fetch reviews_of converted
run_job fuel b (review_namespace o) = some (reviews_of b namespace_kind (o ∷ []))
run_job fuel b (scan t namespace) =
    map_some (λ f. reviews_of b (gvk_of t) (converted t.object_type f.objects))
      (fetch fuel (list_task b t namespace) "")

unfoldable pub run_jobs : ℕ → Backfiller → List Job → Option (List (List AdmissionReview))
unfolding run_job
run_jobs fuel b [] = some []
run_jobs fuel b (j ∷ js) =
    let rest = run_jobs fuel b js in and_then (λ r. map_some (◌∷◌ r) rest) (run_job fuel b j)

-- How `Start` ends: with an error before the walk, with the panic, with an error while jobs are in the
-- pool, or after the reviews of the nodes and of every job.
pub data Started : Type 0 where
  not_started : String → Started
  panicked : Started
  stopped : String → List Job → Started
  completed : List AdmissionReview → List (List AdmissionReview) → Started

unfoldable pub await_services : Backfiller → Result String Bool
unfolding await_webhook_service await_collector_service
await_services b =
    if b.disable_wait
    then ok true
    else (if (await_webhook_service b.validates b.jitter max_connection_attempts).available
        then (if (await_collector_service b.can_marshal b.can_request b.responds b.jitter
              max_connection_attempts).available
            then ok true
            else err "failed to await collector service")
        else err "failed to await webhook service")

unfoldable pub walk_namespaces :
    ℕ → Backfiller → List AdmissionReview → List BackFillJobDescription → Option Started
unfolding fetch run_jobs all_jobs
walk_namespaces fuel b nodes tasks =
    and_then
      (λ (f : Fetched).
        if f.failed
        then some (stopped "failed to list namespaces" (all_jobs tasks f.objects))
        else map_some (completed nodes) (run_jobs fuel b (all_jobs tasks f.objects)))
      (fetch fuel (λ cursor. b.list_namespaces (options b cursor)) "")

unfoldable pub walk : ℕ → Backfiller → List AdmissionReview → Option Started
unfolding walk_namespaces enabled_tasks catalog
walk fuel b nodes = elim (enabled_tasks b.get_configuration_accessor catalog) [
  | none ↦ some panicked
  | some tasks ↦ walk_namespaces fuel b nodes tasks
]

-- `Start`
unfoldable pub start : ℕ → Backfiller → Option Started
unfolding await_services enumerate_nodes walk
start fuel b = elim (await_services b) [
  | err e ↦ some (not_started e)
  | ok _ ↦ and_then (walk fuel b) (enumerate_nodes fuel b)
]

-- `DisableServiceWait`
unfoldable pub disable_service_wait : Backfiller → Backfiller
disable_service_wait b = record b { disable_wait = true }
