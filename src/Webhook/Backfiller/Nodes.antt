-- ===== src/Webhook/Backfiller/Nodes.antt =====
-- `enumerateNodes` of app/domain/webhook/backfiller/backfiller.go, which tries again until it succeeds.
use cloudzero_agent.Base.{
  ℕ, ◌<◌, ◌≤◌, ◌+◌, ◌||◌, ◌&&◌, not, Bool, Bool-cases, inl, inr, String, true, false, Option, none,
  some, List, [], length, ◌≡◌, refl, arith, if◌then◌else◌,
}
use cloudzero_agent.Webhook.Format.{Accessor}
use cloudzero_agent.Webhook.Review.{AdmissionReview}
use cloudzero_agent.Webhook.Hook.{Object}
use cloudzero_agent.Webhook.Backfiller.Fetch.{Page}
use cloudzero_agent.Webhook.Backfiller.Pages.{
  Gives, objects_of, fetch_nodes-refused, fetch_nodes-Gives,
}
use cloudzero_agent.Webhook.Backfiller.Walk.{
  Backfiller, options, node_kind, reviews_of, enumerate_nodes,
}

abbrev pub wants_nodes : Accessor → Bool
wants_nodes a = a.labels_enabled_for_type || a.annotations_enabled_for_type

abbrev wants_none : Accessor → Bool
wants_none a = not a.labels_enabled_for_type && not a.annotations_enabled_for_type

wants_none_lem : (a : Accessor) (w : Bool) → wants_nodes a ≡ w → wants_none a ≡ not w
wants_none_lem a w h = ground arith

-- The reviews of the nodes on some pages, if nodes are wanted.
abbrev pub node_reviews : Backfiller → List Object → List AdmissionReview
node_reviews b nodes = if wants_nodes b.node_accessor then reviews_of b node_kind nodes else []

abbrev list_at : Backfiller → ℕ → String → Option Page
list_at b attempt cursor = b.list_nodes attempt (options b cursor)

module _ (fuel : ℕ) (b : Backfiller) where
  pub enumerate_nodes_lem :
      (given : String → Option Page) (k : ℕ) (page : Page) (others : List Page)
      → ((i : ℕ) → i < k → b.list_nodes i (options b "") ≡ none)
      → ((i : ℕ) (c : String) → k ≤ i → b.list_nodes i (options b c) ≡ given c)
      → Gives given "" page others
      → k + length others < fuel
      → enumerate_nodes fuel b ≡ some (node_reviews b (objects_of page others))
  unfolding enumerate_nodes
  enumerate_nodes_lem given k page others refuses answers g h =
      elim (Bool-cases (wants_nodes b.node_accessor)) [
        | inl e ↦
            rw
              (
                e,
                wants_none_lem b.node_accessor true e,
                fetch_nodes-Gives (list_at b) given k answers k fuel 0 "" page others (omega arith)
                    refuses g h,
                enumerate_nodes,
              )
              refl
        | inr e ↦ rw (e, wants_none_lem b.node_accessor false e, enumerate_nodes) refl
      ]

  pub enumerate_nodes-refused :
      wants_nodes b.node_accessor ≡ true
      → ((i : ℕ) → b.list_nodes i (options b "") ≡ none)
      → enumerate_nodes fuel b ≡ none
  unfolding enumerate_nodes
  enumerate_nodes-refused wanted refuses =
      rw
        (
          wants_none_lem b.node_accessor true wanted,
          fetch_nodes-refused fuel (list_at b) 0 "" refuses,
          enumerate_nodes,
        )
        refl
