-- ===== src/Webhook/Latest.antt =====
-- A history of writes of the webhook: the record of an object says what its last write said.
use cloudzero_agent.Base.{
  ℕ, String, true, false, Option, none, some, List, [], ◌∷◌, ◌++◌, any, all, ◌&&◌, ◌==◌, eq_iff,
  Bool-cases, Option-cases, if◌then◌else◌, All, inl, inr, ◌≡◌, refl, arith,
}
use cloudzero_agent.Pusher.Record.{ResourceTags}
use cloudzero_agent.Webhook.Repository.{
  find_first, conflicts, create, update_rows, update_record, Write, write_found,
  write_data_to_storage,
}
use cloudzero_agent.Webhook.Storage.{has_id, updated, Describes, write_data_to_storage-Describes}
use cloudzero_agent.Webhook.History.{
  Apart, other_id, has_ids, find_first-Apart, find_first-update_other, find_first-append_found,
}

-- What the search of a write finds.
abbrev searched : Write → ResourceTags → List ResourceTags → Option ResourceTags
searched w r rows = if w.can_search then find_first r rows else none

create-other :
    (now : ℕ) (id : String) (q r f : ResourceTags) (rows : List ResourceTags)
    → find_first q rows ≡ some f
    → find_first q (create now id r rows) ≡ some f
unfolding create
create-other now id q r f rows e = elim (Bool-cases (any (conflicts r) rows)) [
  | inl c ↦ rw c e
  | inr c ↦ rw c (find_first-append_found q f rows _ e)
]

update_record-other :
    (now : ℕ) (q r f : ResourceTags) (rows : List ResourceTags)
    → find_first q rows ≡ some f
    → (f.id == r.id) ≡ false
    → find_first q (update_record now r rows) ≡ some f
unfolding update_record
update_record-other now q r f rows e h = elim (Bool-cases (r.id == "")) [
  | inl c ↦ rw c e
  | inr c ↦ rw c (find_first-update_other now q r f rows e h)
]

write_data_to_storage-other :
    (w : Write) (q r f : ResourceTags) (rows : List ResourceTags)
    → Apart q r
    → has_ids rows ≡ true
    → find_first q rows ≡ some f
    → find_first q (write_data_to_storage w r rows) ≡ some f
unfolding write_data_to_storage
write_data_to_storage-other w q r f rows apart h e = elim (Bool-cases w.can_write) [
  | inr c ↦ rw c e
  | inl c ↦ elim (Bool-cases w.can_search) [
    | inr s ↦ rw (c, s) (create-other w.now w.next_id q r f rows e)
    | inl s ↦ elim (Option-cases (find_first r rows)) [
      | inl n ↦ rw (c, s, n) (create-other w.now w.next_id q r f rows e)
      | inr (g, n) ↦
          rw (c, s, n)
            (update_record-other w.now q (updated w r g) f rows e
              (find_first-Apart q r f g rows apart h e n))
    ]
  ]
]

-- The IDs stay different.
all-update_rows :
    (id : String) (now : ℕ) (r : ResourceTags) (rows : List ResourceTags)
    → all (other_id id) (update_rows now r rows) ≡ all (other_id id) rows
unfolding update_rows
all-update_rows id now r [] = refl
all-update_rows id now r (row ∷ rows) = ground (arith, all-update_rows id now r rows)

has_ids-update_rows :
    (now : ℕ) (r : ResourceTags) (rows : List ResourceTags)
    → has_ids (update_rows now r rows) ≡ has_ids rows
unfolding update_rows
has_ids-update_rows now r [] = refl
has_ids-update_rows now r (row ∷ rows) =
    ground (arith, all-update_rows row.id now r rows, has_ids-update_rows now r rows)

all-append_row :
    (id : String) (row : ResourceTags) (rows : List ResourceTags)
    → all (other_id id) (rows ++ row ∷ []) ≡ (all (other_id id) rows && other_id id row)
all-append_row id row [] = ground arith
all-append_row id row (r ∷ rows) = ground (arith, all-append_row id row rows)

has_ids-append_row :
    (row : ResourceTags) (rows : List ResourceTags)
    → has_ids rows ≡ true
    → has_id row ≡ true
    → all (other_id row.id) rows ≡ true
    → has_ids (rows ++ row ∷ []) ≡ true
has_ids-append_row row [] h i o = ground arith
has_ids-append_row row (r ∷ rows) h i o = ground (
  arith,
  eq_iff r.id row.id,
  eq_iff row.id r.id,
  all-append_row r.id row rows,
  has_ids-append_row row rows,
)

create-has_ids :
    (now : ℕ) (id : String) (r : ResourceTags) (rows : List ResourceTags)
    → has_ids rows ≡ true
    → (id == "") ≡ false
    → all (other_id id) rows ≡ true
    → has_ids (create now id r rows) ≡ true
unfolding create
create-has_ids now id r rows h i o = elim (Bool-cases (any (conflicts r) rows)) [
  | inl c ↦ rw c h
  | inr c ↦ rw c (has_ids-append_row _ rows h (rw i refl) o)
]

update_record-has_ids :
    (now : ℕ) (r : ResourceTags) (rows : List ResourceTags)
    → has_ids rows ≡ true
    → has_ids (update_record now r rows) ≡ true
unfolding update_record
update_record-has_ids now r rows h = elim (Bool-cases (r.id == "")) [
  | inl c ↦ rw c h
  | inr c ↦ rw (c, has_ids-update_rows now r rows) h
]

write_found-has_ids :
    (w : Write) (r : ResourceTags) (found : Option ResourceTags) (rows : List ResourceTags)
    → has_ids rows ≡ true
    → (w.next_id == "") ≡ false
    → all (other_id w.next_id) rows ≡ true
    → has_ids (write_found w r found rows) ≡ true
write_found-has_ids w r none rows h i o = create-has_ids w.now w.next_id r rows h i o
write_found-has_ids w r (some f) rows h i o = update_record-has_ids w.now _ rows h

write_data_to_storage-has_ids :
    (w : Write) (r : ResourceTags) (rows : List ResourceTags)
    → has_ids rows ≡ true
    → (w.next_id == "") ≡ false
    → all (other_id w.next_id) rows ≡ true
    → has_ids (write_data_to_storage w r rows) ≡ true
unfolding write_data_to_storage
write_data_to_storage-has_ids w r rows h i o = elim (Bool-cases w.can_write) [
  | inr c ↦ rw c h
  | inl c ↦ rw c (write_found-has_ids w r (searched w r rows) rows h i o)
]

all_have_ids : (rows : List ResourceTags) → has_ids rows ≡ true → all has_id rows ≡ true
all_have_ids [] h = refl
all_have_ids (row ∷ rows) h = ground (arith, all_have_ids rows)

-- Writes one after another.
abbrev pub write_each : List (Write × ResourceTags) → List ResourceTags → List ResourceTags
write_each [] rows = rows
write_each ((w, r) ∷ later) rows = write_each later (write_data_to_storage w r rows)

-- Each write draws an ID that is not empty and that no row has.
abbrev pub AreFresh : List (Write × ResourceTags) → List ResourceTags → Type 0
AreFresh [] rows = Unit
AreFresh ((w, r) ∷ later) rows =
    ((w.next_id == "") ≡ false)
    × (all (other_id w.next_id) rows ≡ true)
    × AreFresh later (write_data_to_storage w r rows)

find_first-write_each :
    (q f : ResourceTags) (later : List (Write × ResourceTags)) (rows : List ResourceTags)
    → has_ids rows ≡ true
    → AreFresh later rows
    → All (λ (e : Write × ResourceTags). Apart q e.1) later
    → find_first q rows ≡ some f
    → find_first q (write_each later rows) ≡ some f
find_first-write_each q f [] rows h fresh apart e = e
find_first-write_each q f ((w, r) ∷ later) rows h (i, o, fresh) (a, apart) e =
    find_first-write_each q f later (write_data_to_storage w r rows)
      (write_data_to_storage-has_ids w r rows h i o) fresh apart
      (write_data_to_storage-other w q r f rows a h e)

-- In a table with different IDs that are not empty, after a write, which succeeds, of a record that was not
-- sent, and any later writes of other records, whether those succeed or not, with fresh IDs, the search for the
-- record finds a row with its labels and annotations that waits to be sent: the table keeps the last
-- thing said of every object.
pub write_each-Describes :
    (w : Write) (r : ResourceTags) (later : List (Write × ResourceTags)) (rows : List ResourceTags)
    → w.can_write ≡ true
    → w.can_search ≡ true
    → r.sent_at ≡ none
    → has_ids rows ≡ true
    → AreFresh ((w, r) ∷ later) rows
    → All (λ (e : Write × ResourceTags). Apart r e.1) later
    → (row : ResourceTags) × (find_first r (write_each ((w, r) ∷ later) rows) ≡ some row)
      × Describes r row
      × (row.sent_at ≡ none)
write_each-Describes w r later rows cw cs unsent h (i, o, fresh) apart =
    let (row, e, d, s) =
      write_data_to_storage-Describes w r rows cw cs unsent (all_have_ids rows h) in
    (
      row,
      find_first-write_each r row later (write_data_to_storage w r rows)
          (write_data_to_storage-has_ids w r rows h i o) fresh apart e,
      d,
      s,
    )
