-- ===== src/Shipper/Identity.antt =====
-- `GetShipperID` (app/domain/shipper/shipper.go) and `AbandonFiles` (abandon.go).
use cloudzero_agent.Base.{
  String, Bool, Option, none, some, List, [], ◌∷◌, ◌==◌, ◌&&◌, not, if◌then◌else◌, trim_space,
}
use cloudzero_agent.Shipper.Upload.{
  ShipError, invalid_shipper_id, http_unknown, http_request_failed, encode_body, get_remote_base,
  Env, Response, inspect_http_response,
}

-- What reading the file of the ID gives.
pub data IdFile : Type 0 where
  present : String → IdFile
  missing unreadable : IdFile

pub record Host : Type 0 where
  pub id_file : IdFile
  pub can_create : Bool
  pub can_write : Bool
  pub hostname : Option String
  pub new_uuid : String

abbrev pub name_or : Option String → String → String
name_or none uuid = uuid
name_or (some name) uuid = name

-- The answer, and the ID that the shipper keeps.
abbrev pub find_id : Host → IdFile → Option String × String
find_id host (present content) = (some (trim_space content), trim_space content)
find_id host missing =
    if host.can_create && host.can_write
    then (some (name_or host.hostname host.new_uuid), name_or host.hostname host.new_uuid)
    else (none, "")
find_id host unreadable = (none, "")

-- `none` is an error.
unfoldable pub get_shipper_id : Host → String → Option String × String
unfolding trim_space
get_shipper_id host kept = if kept == "" then find_id host host.id_file else (some kept, kept)

-- What `AbandonFiles` calls: the encoding of the references, the address of the service, and the server.
pub record Abandon : Type 0 where
  pub can_encode : Bool
  pub has_base : Bool
  pub can_request : Bool
  pub post : String → List String → Option Response

abbrev pub after_abandon : Env → Option Response → Option ShipError
after_abandon env none = some http_request_failed
after_abandon env (some r) = inspect_http_response env r

abbrev pub abandon_as : Env → Abandon → Option String → List String → Option ShipError
abandon_as env calls none payload = some invalid_shipper_id
abandon_as env calls (some id) payload =
    if not calls.can_encode
    then some encode_body
    else if not calls.has_base
    then some get_remote_base
    else if not calls.can_request
    then some http_unknown
    else after_abandon env (calls.post id payload)

-- The references stand for the payload, whose reason is always the same.
unfoldable pub abandon_files : Env → Abandon → List String → Option ShipError
unfolding inspect_http_response
abandon_files env calls [] = none
abandon_files env calls (id ∷ payload) = abandon_as env calls env.shipper_id (id ∷ payload)
