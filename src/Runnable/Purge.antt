-- ===== src/Runnable/Purge.antt =====
-- One tick of the housekeeper (app/domain/housekeeper/housekeeper.go). The database is a parameter: what
-- the query for expired records finds, and what it can delete; a transaction whose block fails changes
-- nothing.
use cloudzero_agent.Base.{String, Bool, Option, none, some, List, [], ◌∷◌, all, ◌&&◌, if◌then◌else◌}

pub record Database : Type 0 where
  pub expired : Option (List String)
  pub can_delete : String → Bool
  pub can_commit : Bool

-- The records that are deleted, by ID.
abbrev pub delete_all : Database → List String → List String
delete_all db [] = []
delete_all db (id ∷ ids) = if all db.can_delete (id ∷ ids) && db.can_commit then id ∷ ids else []

abbrev pub purge_found : Database → Option (List String) → List String
purge_found db none = []
purge_found db (some ids) = delete_all db ids

abbrev pub purge : Database → List String
purge db = purge_found db db.expired
