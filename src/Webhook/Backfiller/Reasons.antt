-- ===== src/Webhook/Backfiller/Reasons.antt =====
-- What each review that a backfill posts is for.
use mathlib.Core.Logic.Or
use mathlib.Core.List.{Mem}
use cloudzero_agent.Base.{String, true, some, List, ◌==◌, ◌||◌, ◌&&◌, ◌≡◌}
use cloudzero_agent.Webhook.Format.{Accessor}
use cloudzero_agent.Webhook.Review.{AdmissionReview}
use cloudzero_agent.Webhook.Hook.{Object}
use cloudzero_agent.Webhook.Backfiller.Catalog.{BackFillJobDescription, catalog}
use cloudzero_agent.Webhook.Backfiller.Pages.{Listing, objects_of}
use cloudzero_agent.Webhook.Backfiller.Walk.{Backfiller, gvk_of}
use cloudzero_agent.Webhook.Backfiller.Posts.{creation}

-- Why a backfill posts a review: a node that is wanted, a namespace, or an object of the type of a task
-- whose accessor asks for labels or annotations, in a namespace.
pub data IsCalledFor (b : Backfiller) (pages : BackFillJobDescription → String → Listing)
    (acc : BackFillJobDescription → Accessor) (nodes namespaces : List Object) (r : AdmissionReview)
    : Type 0 where
  of_node :
      (o : Object) (raw : String)
      → Mem o nodes
      → (b.node_accessor.labels_enabled_for_type || b.node_accessor.annotations_enabled_for_type)
        ≡ true
      → b.encode o ≡ some raw
      → r ≡ creation b (record { group = ""; version = "v1"; kind = "node" }) raw o
      → IsCalledFor b pages acc nodes namespaces r
  of_namespace :
      (o : Object) (raw : String)
      → Mem o namespaces
      → b.encode o ≡ some raw
      → r ≡ creation b (record { group = ""; version = "v1"; kind = "namespace" }) raw o
      → IsCalledFor b pages acc nodes namespaces r
  of_task :
      (o x : Object) (t : BackFillJobDescription) (raw : String)
      → Mem o namespaces
      → Mem t catalog
      → ((acc t).labels_enabled && (acc t).labels_enabled_for_type
          || (acc t).annotations_enabled && (acc t).annotations_enabled_for_type)
        ≡ true
      → Mem x (objects_of (pages t o.object.name).first (pages t o.object.name).others)
      → (x.go_type == t.object_type) ≡ true
      → b.encode x ≡ some raw
      → r ≡ creation b (gvk_of t) raw x
      → IsCalledFor b pages acc nodes namespaces r

module _ (b : Backfiller) (pages : BackFillJobDescription → String → Listing)
    (acc : BackFillJobDescription → Accessor) (nodes namespaces : List Object)
    (r : AdmissionReview) where
  abbrev IsExplained : Type 0
  IsExplained = ∥ IsCalledFor b pages acc nodes namespaces r ∥₁
