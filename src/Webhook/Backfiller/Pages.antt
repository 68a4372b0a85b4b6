-- ===== src/Webhook/Backfiller/Pages.antt =====
-- The loops over pages against the lists that the server holds.
use cloudzero_agent.Base.{
  ℕ, zero, suc, ◌+◌, ◌≤◌, ◌<◌, String, true, false, Option, none, some, List, [], ◌∷◌, ◌++◌, ◌==◌,
  length, ◌≡◌, refl, arith,
}
use cloudzero_agent.Webhook.Hook.{Object}
use cloudzero_agent.Webhook.Backfiller.Fetch.{Page, fetch, fetch_nodes}

-- The pages of a list: the first one and those that the tokens lead to.
pub record Listing : Type 0 where
  pub first : Page
  pub others : List Page

-- The pages that a server gives from a token on; only the last one has no token.
abbrev pub Gives : (String → Option Page) → String → Page → List Page → Type 0
Gives list cursor page [] = (list cursor ≡ some page) × ((page.next == "") ≡ true)
Gives list cursor page (p ∷ ps) =
    (list cursor ≡ some page) × ((page.next == "") ≡ false) × Gives list page.next p ps

abbrev pub objects_of : Page → List Page → List Object
objects_of page [] = page.items
objects_of page (p ∷ ps) = page.items ++ objects_of p ps

-- A loop over pages that is given more fuel than there are further pages ends with the objects of all
-- pages, in their order.
pub fetch-Gives :
    (fuel : ℕ) (list : String → Option Page) (cursor : String) (page : Page) (pages : List Page)
    → Gives list cursor page pages
    → length pages < fuel
    → fetch fuel list cursor ≡ some (record { objects = objects_of page pages; failed = false })
unfolding fetch
fetch-Gives zero list cursor page pages g h = absurd (omega arith)
fetch-Gives (suc fuel) list cursor page [] (e, last) h = rw (e, last, fetch) refl
fetch-Gives (suc fuel) list cursor page (p ∷ ps) (e, more, g) h =
    rw (e, more, fetch-Gives fuel list page.next p ps g (omega arith), fetch) refl

-- While the server refuses to list the nodes, the loop over them does not end, whatever the fuel.
pub fetch_nodes-refused :
    (fuel : ℕ) (list : ℕ → String → Option Page) (attempt : ℕ) (cursor : String)
    → ((i : ℕ) → list i cursor ≡ none)
    → fetch_nodes fuel list attempt cursor ≡ none
unfolding fetch_nodes
fetch_nodes-refused zero list attempt cursor h = refl
fetch_nodes-refused (suc fuel) list attempt cursor h =
    rw (h attempt, fetch_nodes) (fetch_nodes-refused fuel list (attempt + 1) cursor h)

module _ (list : ℕ → String → Option Page) (given : String → Option Page) (k : ℕ)
    (answers : (i : ℕ) (c : String) → k ≤ i → list i c ≡ given c) where
  fetch_nodes-answered :
      (fuel attempt : ℕ) (cursor : String) (page : Page) (pages : List Page)
      → k ≤ attempt
      → Gives given cursor page pages
      → length pages < fuel
      → fetch_nodes fuel list attempt cursor ≡ some (objects_of page pages)
  unfolding fetch_nodes
  fetch_nodes-answered zero attempt cursor page pages r g h = absurd (omega arith)
  fetch_nodes-answered (suc fuel) attempt cursor page [] r (e, last) h =
      rw (answers attempt cursor r, e, last, fetch_nodes) refl
  fetch_nodes-answered (suc fuel) attempt cursor page (p ∷ ps) r (e, more, g) h =
      rw
        (
          answers attempt cursor r,
          e,
          more,
          fetch_nodes-answered fuel (attempt + 1) page.next p ps (omega arith) g (omega arith),
          fetch_nodes,
        )
        refl

  -- When the server refuses the first `k` lists of the nodes and answers all later ones, the loop ends
  -- with the nodes of all pages, given fuel for the refusals and the pages.
  pub fetch_nodes-Gives :
      (refusals fuel attempt : ℕ) (cursor : String) (page : Page) (pages : List Page)
      → attempt + refusals ≡ k
      → ((i : ℕ) → i < k → list i cursor ≡ none)
      → Gives given cursor page pages
      → refusals + length pages < fuel
      → fetch_nodes fuel list attempt cursor ≡ some (objects_of page pages)
  unfolding fetch_nodes
  fetch_nodes-Gives refusals zero attempt cursor page pages s refuses g h = absurd (omega arith)
  fetch_nodes-Gives zero (suc fuel) attempt cursor page pages s refuses g h =
      fetch_nodes-answered (suc fuel) attempt cursor page pages (omega arith) g (omega arith)
  fetch_nodes-Gives (suc refusals) (suc fuel) attempt cursor page pages s refuses g h =
      rw (refuses attempt (omega arith), fetch_nodes)
        (fetch_nodes-Gives refusals fuel (attempt + 1) cursor page pages (omega arith) refuses g
          (omega arith))
