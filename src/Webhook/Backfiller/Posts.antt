-- ===== src/Webhook/Backfiller/Posts.antt =====
-- Which reviews `Start` of app/domain/webhook/backfiller/backfiller.go has posted when it completes.
use mathlib.Core.Logic.Or
use mathlib.Core.Logic.{∥∥₁_prop, ∥∥₁_map}
use mathlib.Core.List.{
  Mem, Mem-prop, mem-cons, not-mem-nil, mem-cons_self, mem-cons_of_mem, mem-append_left,
  mem-append_right,
}
use cloudzero_agent.Base.{
  ℕ, ◌<◌, ◌≤◌, ◌+◌, String, true, false, Bool-cases, inl, inr, Option, none, some, Option-cases,
  List, [], ◌∷◌, ◌++◌, map, length, ok, ◌≡◌, refl, sym, arith,
}
use cloudzero_agent.Shipper.Chunk.{concat}
use cloudzero_agent.Webhook.Format.{Accessor}
use cloudzero_agent.Webhook.Review.{GroupVersionKind, AdmissionReview, v1, operation_create}
use cloudzero_agent.Webhook.Hook.{Object}
use cloudzero_agent.Webhook.Backfiller.Catalog.{BackFillJobDescription, catalog}
use cloudzero_agent.Webhook.Backfiller.Fetch.{Page}
use cloudzero_agent.Webhook.Backfiller.Pages.{Listing, Gives, objects_of}
use cloudzero_agent.Webhook.Backfiller.Nodes.{node_reviews}
use cloudzero_agent.Webhook.Backfiller.Visits.{job_reviews, start-completed}
use cloudzero_agent.Webhook.Backfiller.Walk.{
  Backfiller, options, list_task, build_admission_review, reviews_of, scans, enabled_tasks, Job,
  review_namespace, scan, all_jobs, Started, not_started, panicked, stopped, completed,
  await_services, start,
}

-- The review that creates an object whose encoding is `raw`.
abbrev pub creation : Backfiller → GroupVersionKind → String → Object → AdmissionReview
creation b gvk raw o = record {
  original = none;
  id = b.new_id o;
  name = o.object.name;
  review_namespace = o.object.object_namespace;
  operation = operation_create;
  version = v1;
  request_gvr = none;
  request_gvk = gvk;
  old_object_raw = "";
  new_object_raw = raw;
  dry_run = false;
  user_info = "";
}

-- The reviews that were posted when `Start` returned after all jobs; none if it did not get there.
unfoldable pub posted : Option Started → List AdmissionReview
posted none = []
posted (some (not_started e)) = []
posted (some panicked) = []
posted (some (stopped e jobs)) = []
posted (some (completed nodes jobs)) = nodes ++ concat jobs

pub build_admission_review_lem :
    (b : Backfiller) (gvk : GroupVersionKind) (raw : String) (x : Object)
    → b.encode x ≡ some raw
    → build_admission_review b gvk x ≡ some (creation b gvk raw x)
unfolding build_admission_review
build_admission_review_lem b gvk raw x e = rw (e, build_admission_review) refl

pub mem-reviews_of :
    (b : Backfiller) (gvk : GroupVersionKind) (raw : String) (x : Object) (os : List Object)
    → b.encode x ≡ some raw
    → Mem x os
    → Mem (creation b gvk raw x) (reviews_of b gvk os)
unfolding reviews_of
mem-reviews_of b gvk raw x [] e m = absurd (not-mem-nil m)
mem-reviews_of b gvk raw x (o ∷ os) e m =
    Or.elim Mem-prop (mem-cons.0 m)
      (λ same. rw (sym same, build_admission_review_lem b gvk raw x e, reviews_of) mem-cons_self)
      (λ later. elim (Option-cases (build_admission_review b gvk o)) [
        | inl f ↦ rw (f, reviews_of) (mem-reviews_of b gvk raw x os e later)
        | inr (r, f) ↦
            rw (f, reviews_of) (mem-cons_of_mem _ (mem-reviews_of b gvk raw x os e later))
      ])

mem-all_jobs :
    (j : Job) (tasks : List BackFillJobDescription) (o : Object) (os : List Object)
    → Mem o os
    → ((p : Object) → o ≡ p → Mem j (review_namespace p ∷ map (λ t. scan t p.object.name) tasks))
    → Mem j (all_jobs tasks os)
unfolding all_jobs
mem-all_jobs j tasks o [] m h = absurd (not-mem-nil m)
mem-all_jobs j tasks o (p ∷ os) m h =
    Or.elim Mem-prop (mem-cons.0 m) (λ same. mem-append_left (all_jobs tasks os) (h p same))
      (λ later.
        mem-append_right (review_namespace p ∷ map (λ t. scan t p.object.name) tasks)
          (mem-all_jobs j tasks o os later h))

mem-concat_map {ℓ} :
    {A B : Type ℓ} (f : A → List B) (x : A) (xs : List A) (y : B)
    → Mem x xs
    → Mem y (f x)
    → Mem y (concat (map f xs))
unfolding concat
mem-concat_map f x [] y m h = absurd (not-mem-nil m)
mem-concat_map f x (z ∷ xs) y m h =
    Or.elim Mem-prop (mem-cons.0 m) (λ same. mem-append_left (concat (map f xs)) (rw same at h))
      (λ later. mem-append_right (f z) (mem-concat_map f x xs y later h))

-- Every task has an accessor here, so that the walk does not panic; what an accessor asks for is kept.
mem-enabled_tasks :
    (accessors : String → String → String → Option Accessor)
    (acc : BackFillJobDescription → Accessor) (ts : List BackFillJobDescription)
    → ((t : BackFillJobDescription) → accessors t.group t.version t.kind ≡ some (acc t))
    → (out : List BackFillJobDescription) × (enabled_tasks accessors ts ≡ some out)
      × ((t : BackFillJobDescription) → Mem t ts → scans (acc t) ≡ true → Mem t out)
      × ((t : BackFillJobDescription) → Mem t out → ∥ (Mem t ts × (scans (acc t) ≡ true)) ∥₁)
unfolding enabled_tasks
mem-enabled_tasks accessors acc [] found =
    ([], refl, (λ t m. absurd (not-mem-nil m)), λ t m. absurd (not-mem-nil m))
mem-enabled_tasks accessors acc (u ∷ ts) found =
    let (out, e, keeps, only) = mem-enabled_tasks accessors acc ts found in
    elim (Bool-cases (scans (acc u))) [
      | inl s ↦ (
        u ∷ out,
        rw (found u, e, s, enabled_tasks) refl,
        λ t m w.
            Or.elim Mem-prop (mem-cons.0 m) (λ same. rw (sym same) mem-cons_self)
              (λ later. mem-cons_of_mem u (keeps t later w)),
        λ t m.
            Or.elim ∥∥₁_prop (mem-cons.0 m) (λ same. ∣ (rw (sym same) mem-cons_self, rw same s) ∣₁)
              (λ later. ∥∥₁_map (only t later) (λ q. (mem-cons_of_mem u q.0, q.1))),
      )
      | inr s ↦ (
        out,
        rw (found u, e, s, enabled_tasks) refl,
        λ t m w.
            Or.elim Mem-prop (mem-cons.0 m) (λ same. absurd (ground (arith, s, rw same at w)))
              (λ later. keeps t later w),
        λ t m. ∥∥₁_map (only t m) (λ q. (mem-cons_of_mem u q.0, q.1)),
      )
    ]

module _ (fuel : ℕ) (b : Backfiller) (pages : BackFillJobDescription → String → Listing)
    (gives : (t : BackFillJobDescription) (n : String)
      → Gives (list_task b t n) "" (pages t n).first (pages t n).others)
    (fits : (t : BackFillJobDescription) (n : String) → length (pages t n).others < fuel)
    (acc : BackFillJobDescription → Accessor)
    (found : (t : BackFillJobDescription)
      → b.get_configuration_accessor t.group t.version t.kind ≡ some (acc t))
    (given : String → Option Page) (k : ℕ) (node_page page : Page) (node_pages others : List Page)
    (serves : await_services b ≡ ok true)
    (refuses : (i : ℕ) → i < k → b.list_nodes i (options b "") ≡ none)
    (answers : (i : ℕ) (c : String) → k ≤ i → b.list_nodes i (options b c) ≡ given c)
    (nodes : Gives given "" node_page node_pages) (fits_nodes : k + length node_pages < fuel)
    (namespaces : Gives (λ cursor. b.list_namespaces (options b cursor)) "" page others)
    (fits_namespaces : length others < fuel) where
  pub start-jobs :
      (out : List BackFillJobDescription) × ((t : BackFillJobDescription)
        → Mem t catalog
        → scans (acc t) ≡ true
        → Mem t out)
      × ((t : BackFillJobDescription) → Mem t out → ∥ (Mem t catalog × (scans (acc t) ≡ true)) ∥₁)
      × (start fuel b
          ≡ some (
              completed
                (node_reviews b (objects_of node_page node_pages))
                (map (job_reviews b pages) (all_jobs out (objects_of page others)))))
  start-jobs =
      let (out, e, keeps, only) =
        mem-enabled_tasks b.get_configuration_accessor acc catalog found in
      (
        out,
        keeps,
        only,
        start-completed fuel b pages gives fits out given k node_page page node_pages others serves
            e refuses answers nodes fits_nodes namespaces fits_namespaces,
      )

  -- When the services are available, every task has an accessor, the server refuses the first `k` lists
  -- of the nodes and no later one, and it gives the nodes, the namespaces and every list of a task in
  -- finitely many pages, then with fuel for the refusals and the pages the backfill completes, and what
  -- it posted has the review that creates each namespace on any page, if the namespace can be encoded.
  pub start-posts_namespaces :
      (o : Object) (raw : String)
      → Mem o (objects_of page others)
      → b.encode o ≡ some raw
      → Mem
          (creation b (record { group = ""; version = "v1"; kind = "namespace" }) raw o)
          (posted (start fuel b))
  unfolding posted
  start-posts_namespaces o raw mo e =
      let (out, keeps, only, s) = start-jobs in
      rw s (
        mem-append_right (node_reviews b (objects_of node_page node_pages)) (
          mem-concat_map (job_reviews b pages) (review_namespace o)
            (all_jobs out (objects_of page others)) _
            (mem-all_jobs (review_namespace o) out o _ mo (λ p same. rw same mem-cons_self))
            (mem-reviews_of b _ raw o (o ∷ []) e mem-cons_self)))
