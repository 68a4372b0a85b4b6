-- ===== src/Webhook/Repository.antt =====
-- The repository of records (app/storage/repo/resource_store_impl.go) over a table of rows, and the
-- write of app/domain/webhook/handler/generic.go. What the database refuses is a parameter; the rows
-- that a condition finds come in the order of the table.
use cloudzero_agent.Base.{
  ℕ, String, Bool, true, false, Option, none, some, List, [], ◌∷◌, ◌++◌, any, not, is_some, ◌&&◌,
  ◌||◌, ◌==◌, if◌then◌else◌, ◌≡◌, arith,
}
use cloudzero_agent.Pusher.Record.{ResourceType, ResourceTags, resource_type_to_metric_name}
use cloudzero_agent.Webhook.Format.{Accessor, KubernetesObject}

-- `type = ?`; the names of the types are all different.
abbrev pub is_type : ResourceType → ResourceType → Bool
is_type t u = resource_type_to_metric_name t == resource_type_to_metric_name u

-- The condition on the namespace, which is there only if the record has one.
abbrev pub has_namespace : Option String → Option String → Bool
has_namespace none row_namespace = true
has_namespace (some n) none = false
has_namespace (some n) (some m) = m == n

abbrev pub matches : ResourceTags → ResourceTags → Bool
matches r row =
    is_type row.resource_type r.resource_type
    && row.name == r.name
    && has_namespace r.resource_namespace row.resource_namespace

-- `FindFirstBy` with the conditions for a record.
unfoldable pub find_first : ResourceTags → List ResourceTags → Option ResourceTags
find_first r [] = none
find_first r (row ∷ rows) = let rest = find_first r rows in if matches r row then some row else rest

-- The conflict that `Create` passes over: the same type, name and namespace, which is not null.
abbrev pub conflicts : ResourceTags → ResourceTags → Bool
conflicts r row = is_some r.resource_namespace && matches r row

-- `Create`, with a new ID.
unfoldable pub create : ℕ → String → ResourceTags → List ResourceTags → List ResourceTags
create now id r rows =
    if any (conflicts r) rows
    then rows
    else rows ++ record r { id = id; record_created = now; record_updated = now } ∷ []

-- The columns that `Update` sets.
abbrev pub overwrite : ℕ → ResourceTags → ResourceTags → ResourceTags
overwrite now r row = record row {
  metric_labels = r.metric_labels;
  labels = r.labels;
  annotations = r.annotations;
  sent_at = r.sent_at;
  record_updated = now;
}

unfoldable pub update_rows : ℕ → ResourceTags → List ResourceTags → List ResourceTags
update_rows now r [] = []
update_rows now r (row ∷ rows) =
    (if row.id == r.id then overwrite now r row else row) ∷ update_rows now r rows

-- `Update`; it refuses a record without an ID.
unfoldable pub update_record : ℕ → ResourceTags → List ResourceTags → List ResourceTags
unfolding update_rows
update_record now r rows = if r.id == "" then rows else update_rows now r rows

-- A write of the webhook, at a time and with the next ID: whether the search and the write succeed.
pub record Write : Type 0 where
  pub now : ℕ
  pub next_id : String
  pub can_search : Bool
  pub can_write : Bool

-- A search that fails finds nothing, and then the record is created.
abbrev pub write_found :
    Write → ResourceTags → Option ResourceTags → List ResourceTags → List ResourceTags
write_found w r none rows = create w.now w.next_id r rows
write_found w r (some found) rows =
    update_record w.now
      (record r {
        id = found.id;
        record_created = found.record_created;
        record_updated = w.now;
        sent_at = none;
      })
      rows

-- `genericWriteDataToStorage`; its errors are only logged, but for the panic below.
unfoldable pub write_data_to_storage : Write → ResourceTags → List ResourceTags → List ResourceTags
unfolding find_first create update_record
write_data_to_storage w r rows =
    if w.can_write
    then write_found w r (if w.can_search then find_first r rows else none) rows
    else rows

-- An update without an ID is refused before the database sees it.
abbrev reaches_database : Option ResourceTags → Bool
reaches_database none = true
reaches_database (some found) = not (found.id == "")

-- When the database refuses a record without a namespace, the counter of failures reads the namespace
-- through a nil pointer.
unfoldable pub write_panics : Write → ResourceTags → List ResourceTags → Bool
unfolding find_first
write_panics w r rows =
    not w.can_write
    && not (is_some r.resource_namespace)
    && reaches_database (if w.can_search then find_first r rows else none)

-- The handler of a creation, an update or a deletion of an object of its type, which it admits.
unfoldable pub admit :
    Write
    → Accessor
    → (Accessor → KubernetesObject → ResourceTags)
    → KubernetesObject
    → List ResourceTags
    → List ResourceTags
unfolding write_data_to_storage
admit w a format_data o rows =
    if a.labels_enabled_for_type || a.annotations_enabled_for_type
    then write_data_to_storage w (format_data a o) rows
    else rows

unfoldable pub admit_panics :
    Write
    → Accessor
    → (Accessor → KubernetesObject → ResourceTags)
    → KubernetesObject
    → List ResourceTags
    → Bool
unfolding write_panics
admit_panics w a format_data o rows =
    (a.labels_enabled_for_type || a.annotations_enabled_for_type)
    && write_panics w (format_data a o) rows

pub admit_panics-writes :
    (w : Write) (a : Accessor) (format_data : Accessor → KubernetesObject → ResourceTags)
    (o : KubernetesObject) (rows : List ResourceTags)
    → w.can_write ≡ true
    → admit_panics w a format_data o rows ≡ false
unfolding admit_panics write_panics
admit_panics-writes w a format_data o rows h = ground (arith, h)
