-- ===== src/Webhook/Storage.antt =====
-- What the table answers after a write of the webhook, and after the pusher has marked a record.
use cloudzero_agent.Base.{
  ℕ, String, Bool, true, false, Option, none, some, List, [], ◌∷◌, ◌++◌, any, all, not, ◌==◌,
  eq_refl, Bool-cases, Option-cases, of_some, inl, inr, ◌≡◌, refl, arith,
}
use cloudzero_agent.Pusher.Record.{ResourceTags, resource_type_to_metric_name}
use cloudzero_agent.Pusher.Flush.{mark_sent}
use cloudzero_agent.Webhook.Repository.{
  has_namespace, matches, find_first, conflicts, create, overwrite, update_rows, update_record,
  Write, write_data_to_storage,
}

abbrev pub has_id : ResourceTags → Bool
has_id row = not (row.id == "")

-- An update of the record that is found changes it in its place.
find_first-update_rows :
    (now : ℕ) (q r f : ResourceTags) (rows : List ResourceTags)
    → find_first q rows ≡ some f
    → (f.id == r.id) ≡ true
    → find_first q (update_rows now r rows) ≡ some (overwrite now r f)
unfolding find_first update_rows
find_first-update_rows now q r f [] e h = absurd (ground arith)
find_first-update_rows now q r f (row ∷ rows) e h = elim (Bool-cases (matches q row)) [
  | inl m ↦
      of_some
        (λ g.
          (g.id == r.id) ≡ true
          → find_first q (update_rows now r (row ∷ rows)) ≡ some (overwrite now r g))
        row f (rw m at e) (λ i. rw (i, m) refl) h
  | inr m ↦ elim (Bool-cases (row.id == r.id)) [
    | inl i ↦ rw (i, m) (find_first-update_rows now q r f rows (rw m at e) h)
    | inr i ↦ rw (i, m) (find_first-update_rows now q r f rows (rw m at e) h)
  ]
]

find_first-append :
    (q row : ResourceTags) (rows : List ResourceTags)
    → find_first q rows ≡ none
    → matches q row ≡ true
    → find_first q (rows ++ row ∷ []) ≡ some row
unfolding find_first
find_first-append q row [] e h = rw h refl
find_first-append q row (r ∷ rows) e h = elim (Bool-cases (matches q r)) [
  | inl m ↦ absurd (ground (arith, rw m at e))
  | inr m ↦ rw m (find_first-append q row rows (rw m at e) h)
]

no_conflicts :
    (q : ResourceTags) (rows : List ResourceTags)
    → find_first q rows ≡ none
    → any (conflicts q) rows ≡ false
unfolding find_first
no_conflicts q [] e = refl
no_conflicts q (r ∷ rows) e = elim (Bool-cases (matches q r)) [
  | inl m ↦ absurd (ground (arith, rw m at e))
  | inr m ↦ ground (arith, m, no_conflicts q rows (rw m at e))
]

find_first-has_id :
    (q f : ResourceTags) (rows : List ResourceTags)
    → find_first q rows ≡ some f
    → all has_id rows ≡ true
    → (f.id == "") ≡ false
unfolding find_first
find_first-has_id q f [] e h = absurd (ground arith)
find_first-has_id q f (r ∷ rows) e h = elim (Bool-cases (matches q r)) [
  | inl m ↦ of_some (λ (g : ResourceTags). (g.id == "") ≡ false) r f (rw m at e) (ground arith)
  | inr m ↦ find_first-has_id q f rows (rw m at e) (ground arith)
]

has_namespace_same : (n : Option String) → has_namespace n n ≡ true
has_namespace_same none = refl
has_namespace_same (some n) = eq_refl n

matches_same :
    (q : ResourceTags) (id : String) (now : ℕ)
    → matches q (record q { id = id; record_created = now; record_updated = now }) ≡ true
matches_same q id now =
    rw (eq_refl (resource_type_to_metric_name q.resource_type), eq_refl q.name)
      (has_namespace_same q.resource_namespace)

-- What a row says of an object.
pub record Describes (r row : ResourceTags) : Type 0 where
  pub labels : row.labels ≡ r.labels
  pub annotations : row.annotations ≡ r.annotations
  pub metric_labels : row.metric_labels ≡ r.metric_labels

abbrev pub updated : Write → ResourceTags → ResourceTags → ResourceTags
updated w r found = record r {
  id = found.id;
  record_created = found.record_created;
  record_updated = w.now;
  sent_at = none;
}

find_first-write_known :
    (w : Write) (r f : ResourceTags) (rows : List ResourceTags)
    → w.can_write ≡ true
    → w.can_search ≡ true
    → all has_id rows ≡ true
    → find_first r rows ≡ some f
    → find_first r (write_data_to_storage w r rows) ≡ some (overwrite w.now (updated w r f) f)
unfolding write_data_to_storage update_record
find_first-write_known w r f rows cw cs h e =
    rw (cw, cs, e, find_first-has_id r f rows e h)
      (find_first-update_rows w.now r (updated w r f) f rows e (eq_refl f.id))

find_first-write_new :
    (w : Write) (r : ResourceTags) (rows : List ResourceTags)
    → w.can_write ≡ true
    → w.can_search ≡ true
    → find_first r rows ≡ none
    → find_first r (write_data_to_storage w r rows)
      ≡ some (record r { id = w.next_id; record_created = w.now; record_updated = w.now })
unfolding write_data_to_storage create
find_first-write_new w r rows cw cs e =
    rw (cw, cs, e, no_conflicts r rows e)
      (find_first-append r
        (record r { id = w.next_id; record_created = w.now; record_updated = w.now }) rows e
        (matches_same r w.next_id w.now))

-- After a write whose search and whose write succeed, in a table where every row has an ID, the search
-- for the record finds a row with its labels and annotations that waits to be sent, whether the object
-- was known before or not.
pub write_data_to_storage-Describes :
    (w : Write) (r : ResourceTags) (rows : List ResourceTags)
    → w.can_write ≡ true
    → w.can_search ≡ true
    → r.sent_at ≡ none
    → all has_id rows ≡ true
    → (row : ResourceTags) × (find_first r (write_data_to_storage w r rows) ≡ some row)
      × Describes r row
      × (row.sent_at ≡ none)
write_data_to_storage-Describes w r rows cw cs unsent h = elim (Option-cases (find_first r rows)) [
  | inl e ↦ (
    record r { id = w.next_id; record_created = w.now; record_updated = w.now },
    find_first-write_new w r rows cw cs e,
    record { labels = refl; annotations = refl; metric_labels = refl },
    unsent,
  )
  | inr (f, e) ↦ (
    overwrite w.now (updated w r f) f,
    find_first-write_known w r f rows cw cs h e,
    record { labels = refl; annotations = refl; metric_labels = refl },
    refl,
  )
]

-- When the webhook writes an object anew between the query of `Flush` and its update of a record that
-- was found, the row has the labels of before the write and is marked as sent, so that the new labels
-- are lost.
pub update_record-after_write :
    (w : Write) (sent later : ℕ) (r f : ResourceTags) (rows : List ResourceTags)
    → w.can_write ≡ true
    → w.can_search ≡ true
    → all has_id rows ≡ true
    → find_first r rows ≡ some f
    → (row : ResourceTags) × (find_first r
          (update_record later (mark_sent sent f) (write_data_to_storage w r rows))
        ≡ some row)
      × Describes f row
      × (row.sent_at ≡ some sent)
unfolding update_record
update_record-after_write w sent later r f rows cw cs h e = (
  overwrite later (mark_sent sent f) (overwrite w.now (updated w r f) f),
  rw (find_first-has_id r f rows e h) (
      find_first-update_rows later r (mark_sent sent f) (overwrite w.now (updated w r f) f)
        (write_data_to_storage w r rows) (find_first-write_known w r f rows cw cs h e)
        (eq_refl f.id)),
  record { labels = refl; annotations = refl; metric_labels = refl },
  refl,
)
