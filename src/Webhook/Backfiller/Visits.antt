-- ===== src/Webhook/Backfiller/Visits.antt =====
-- Which reviews a backfill posts.
use cloudzero_agent.Base.{
  ℕ, ◌<◌, ◌≤◌, ◌+◌, String, true, Option, none, some, List, [], ◌∷◌, map, length, ok, is_some, ◌≡◌,
  refl, lookup, insert,
}
use cloudzero_agent.Webhook.Review.{AdmissionReview}
use cloudzero_agent.Webhook.Hook.{Decoders}
use cloudzero_agent.Webhook.Settings.{Settings}
use cloudzero_agent.Webhook.Controller.{get_configuration_accessor, register, new_webhook_factory}
use cloudzero_agent.Webhook.Backfiller.Catalog.{BackFillJobDescription, catalog}
use cloudzero_agent.Webhook.Backfiller.Fetch.{Page}
use cloudzero_agent.Webhook.Backfiller.Pages.{Listing, Gives, objects_of, fetch-Gives}
use cloudzero_agent.Webhook.Backfiller.Nodes.{
  wants_nodes, node_reviews, enumerate_nodes_lem, enumerate_nodes-refused,
}
use cloudzero_agent.Webhook.Backfiller.Walk.{
  Backfiller, options, list_task, gvk_of, namespace_kind, reviews_of, converted, enabled_tasks, Job,
  review_namespace, scan, all_jobs, run_job, run_jobs, completed, await_services, walk_namespaces,
  walk, start,
}

-- What a job posts if a task lists some pages in a namespace.
abbrev pub job_reviews :
    Backfiller → (BackFillJobDescription → String → Listing) → Job → List AdmissionReview
job_reviews b pages (review_namespace o) = reviews_of b namespace_kind (o ∷ [])
job_reviews b pages (scan t n) =
    reviews_of b (gvk_of t)
      (converted t.object_type (objects_of (pages t n).first (pages t n).others))

module _ (fuel : ℕ) (b : Backfiller) (pages : BackFillJobDescription → String → Listing)
    (gives : (t : BackFillJobDescription) (n : String)
      → Gives (list_task b t n) "" (pages t n).first (pages t n).others)
    (fits : (t : BackFillJobDescription) (n : String) → length (pages t n).others < fuel) where
  run_job_lem : (j : Job) → run_job fuel b j ≡ some (job_reviews b pages j)
  unfolding run_job
  run_job_lem (review_namespace o) = refl
  run_job_lem (scan t n) =
      rw
        (fetch-Gives fuel (list_task b t n) "" (pages t n).first (pages t n).others (gives t n)
          (fits t n))
        refl

  run_jobs_lem : (js : List Job) → run_jobs fuel b js ≡ some (map (job_reviews b pages) js)
  unfolding run_jobs
  run_jobs_lem [] = refl
  run_jobs_lem (j ∷ js) = rw (run_job_lem j, run_jobs_lem js) refl

  -- When the services are available, every task has an accessor, the server refuses the first `k` lists
  -- of the nodes and no later one, and it gives the nodes, the namespaces and every list of a task in
  -- finitely many pages, then with fuel for the refusals and the pages the backfill completes. It posts
  -- the reviews of the nodes, if they are wanted, and, for each namespace of all pages in their order,
  -- the review of the namespace and, for each enabled task, the reviews of the objects of all its pages
  -- in that namespace.
  pub start-completed :
      (tasks : List BackFillJobDescription) (given : String → Option Page) (k : ℕ)
      (node_page page : Page) (node_pages others : List Page)
      → await_services b ≡ ok true
      → enabled_tasks b.get_configuration_accessor catalog ≡ some tasks
      → ((i : ℕ) → i < k → b.list_nodes i (options b "") ≡ none)
      → ((i : ℕ) (c : String) → k ≤ i → b.list_nodes i (options b c) ≡ given c)
      → Gives given "" node_page node_pages
      → k + length node_pages < fuel
      → Gives (λ cursor. b.list_namespaces (options b cursor)) "" page others
      → length others < fuel
      → start fuel b
        ≡ some (
            completed
              (node_reviews b (objects_of node_page node_pages))
              (map (job_reviews b pages) (all_jobs tasks (objects_of page others))))
  unfolding start walk walk_namespaces
  start-completed tasks given k node_page page node_pages others s e refuses answers n m g h =
      rw
        (
          s,
          enumerate_nodes_lem fuel b given k node_page node_pages refuses answers n m,
          e,
          fetch-Gives fuel (λ cursor. b.list_namespaces (options b cursor)) "" page others g h,
          run_jobs_lem (all_jobs tasks (objects_of page others)),
          start,
          walk,
          walk_namespaces,
        )
        refl

-- Every task of the catalog has an accessor in the controller of the factory, so that the walk does not
-- panic.
pub enabled_tasks-registered :
    (d : Decoders) (s : Settings)
    → is_some (
        enabled_tasks
          (λ g v k. get_configuration_accessor g v k (new_webhook_factory d s).dispatch)
          catalog)
      ≡ true
unfolding enabled_tasks catalog get_configuration_accessor new_webhook_factory lookup insert
    register
enabled_tasks-registered d s = refl

-- When the nodes are wanted and the server always refuses to list them, `Start` never returns, whatever
-- the fuel, although the services are available.
pub start-refused :
    (fuel : ℕ) (b : Backfiller)
    → await_services b ≡ ok true
    → wants_nodes b.node_accessor ≡ true
    → ((i : ℕ) → b.list_nodes i (options b "") ≡ none)
    → start fuel b ≡ none
unfolding start
start-refused fuel b s wanted refuses =
    rw (s, enumerate_nodes-refused fuel b wanted refuses, start) refl
