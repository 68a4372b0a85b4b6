-- ===== src/Webhook/Backfiller/Fetch.antt =====
-- The loops over pages of app/domain/webhook/backfiller/backfiller.go, on fuel: one answer takes one unit.
use cloudzero_agent.Base.{
  ℕ, zero, suc, ◌+◌, String, Bool, true, false, Option, none, some, List, [], ◌++◌, ◌==◌,
}
use cloudzero_agent.Webhook.Hook.{Object}

pub record ListOptions : Type 0 where
  pub limit : ℕ
  pub continue : String

-- One answer of a list; an empty token ends it.
pub record Page : Type 0 where
  pub items : List Object
  pub next : String

-- What a loop over pages collects until an empty token or an error, on fuel.
pub record Fetched : Type 0 where
  pub objects : List Object
  pub failed : Bool

abbrev pub before_objects : List Object → Fetched → Fetched
before_objects os f = record f { objects = os ++ f.objects }

abbrev pub map_some {ℓ κ} : {A : Type ℓ} {B : Type κ} → (A → B) → Option A → Option B
map_some f none = none
map_some f (some a) = some (f a)

abbrev pub and_then {ℓ κ} : {A : Type ℓ} {B : Type κ} → (A → Option B) → Option A → Option B
and_then f none = none
and_then f (some a) = f a

unfoldable pub fetch : ℕ → (String → Option Page) → String → Option Fetched
fetch zero list cursor = none
fetch (suc fuel) list cursor = elim (list cursor) [
  | none ↦ some (record { objects = []; failed = true })
  | some page ↦ elim (page.next == "") [
    | true ↦ some (record { objects = page.items; failed = false })
    | false ↦ map_some (before_objects page.items) (fetch fuel list page.next)
  ]
]

-- The loop over the nodes tries again, at once, when a list fails.
unfoldable pub fetch_nodes : ℕ → (ℕ → String → Option Page) → ℕ → String → Option (List Object)
fetch_nodes zero list attempt cursor = none
fetch_nodes (suc fuel) list attempt cursor = elim (list attempt cursor) [
  | none ↦ fetch_nodes fuel list (attempt + 1) cursor
  | some page ↦ elim (page.next == "") [
    | true ↦ some page.items
    | false ↦ map_some (◌++◌ page.items) (fetch_nodes fuel list (attempt + 1) page.next)
  ]
]
