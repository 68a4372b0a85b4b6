-- ===== src/Webhook/History.antt =====
-- Writes of the webhook one after another: what a later write leaves of the record of another object.
use cloudzero_agent.Base.{
  ℕ, String, Bool, true, false, some, List, [], ◌∷◌, ◌++◌, all, not, ◌&&◌, ◌==◌, eq_iff, Bool-cases,
  of_some, inl, inr, ◌≡◌, refl, arith,
}
use cloudzero_agent.Pusher.Record.{ResourceTags}
use cloudzero_agent.Webhook.Repository.{matches, find_first, update_rows}
use cloudzero_agent.Webhook.Storage.{has_id}

-- No row is the row of both records.
abbrev pub Apart : ResourceTags → ResourceTags → Type 0
Apart q r = (row : ResourceTags) → matches q row ≡ true → matches r row ≡ false

-- The IDs are not empty and all different.
abbrev pub other_id : String → ResourceTags → Bool
other_id id row = not (row.id == id)

abbrev pub has_ids : List ResourceTags → Bool
has_ids [] = true
has_ids (row ∷ rows) = has_id row && all (other_id row.id) rows && has_ids rows

-- A row that is found is one of the rows.
find_first-all :
    (f : ResourceTags → Bool) (q row : ResourceTags) (rows : List ResourceTags)
    → find_first q rows ≡ some row
    → all f rows ≡ true
    → f row ≡ true
unfolding find_first
find_first-all f q row [] e h = absurd (ground arith)
find_first-all f q row (r ∷ rows) e h = elim (Bool-cases (matches q r)) [
  | inl m ↦ of_some (λ g. f g ≡ true) r row (rw m at e) (ground arith)
  | inr m ↦ find_first-all f q row rows (rw m at e) (ground arith)
]

-- The rows of two records that are apart have different IDs.
pub find_first-Apart :
    (q r f g : ResourceTags) (rows : List ResourceTags)
    → Apart q r
    → has_ids rows ≡ true
    → find_first q rows ≡ some f
    → find_first r rows ≡ some g
    → (f.id == g.id) ≡ false
unfolding find_first
find_first-Apart q r f g [] apart h e k = absurd (ground (arith, e))
find_first-Apart q r f g (row ∷ rows) apart h e k = elim (Bool-cases (matches q row)) [
  | inl m ↦
      of_some (λ (x : ResourceTags). (x.id == g.id) ≡ false) row f (rw m at e)
        (ground (
          arith,
          eq_iff row.id g.id,
          eq_iff g.id row.id,
          find_first-all (other_id row.id) r g rows (rw (apart row m) at k) (ground arith),
        ))
  | inr m ↦ elim (Bool-cases (matches r row)) [
    | inl n ↦
        of_some (λ (x : ResourceTags). (f.id == x.id) ≡ false) row g (rw n at k)
          (ground (arith, find_first-all (other_id row.id) q f rows (rw m at e) (ground arith)))
    | inr n ↦ find_first-Apart q r f g rows apart (ground arith) (rw m at e) (rw n at k)
  ]
]

-- Overwriting the rows of one ID leaves what is found in a row of another ID.
pub find_first-update_other :
    (now : ℕ) (q r f : ResourceTags) (rows : List ResourceTags)
    → find_first q rows ≡ some f
    → (f.id == r.id) ≡ false
    → find_first q (update_rows now r rows) ≡ some f
unfolding find_first update_rows
find_first-update_other now q r f [] e h = absurd (ground arith)
find_first-update_other now q r f (row ∷ rows) e h = elim (Bool-cases (matches q row)) [
  | inl m ↦
      of_some
        (λ (g : ResourceTags).
          (g.id == r.id) ≡ false → find_first q (update_rows now r (row ∷ rows)) ≡ some g)
        row f (rw m at e) (λ i. rw (i, m) refl) h
  | inr m ↦ elim (Bool-cases (row.id == r.id)) [
    | inl i ↦ rw (i, m) (find_first-update_other now q r f rows (rw m at e) h)
    | inr i ↦ rw (i, m) (find_first-update_other now q r f rows (rw m at e) h)
  ]
]

pub find_first-append_found :
    (q f : ResourceTags) (rows more : List ResourceTags)
    → find_first q rows ≡ some f
    → find_first q (rows ++ more) ≡ some f
unfolding find_first
find_first-append_found q f [] more e = absurd (ground arith)
find_first-append_found q f (row ∷ rows) more e = elim (Bool-cases (matches q row)) [
  | inl m ↦ rw m (rw m at e)
  | inr m ↦ rw m (find_first-append_found q f rows more (rw m at e))
]
