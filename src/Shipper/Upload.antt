-- ===== src/Shipper/Upload.antt =====
-- `AllocatePresignedURLs`, `UploadFile` and `InspectHTTPResponse` (app/domain/shipper). The HTTP client,
-- the inspector and the file system are parameters; the context's deadline is an error of the client.
use cloudzero_agent.Base.{
  ℕ, String, Bool, Option, none, some, List, [], ◌∷◌, map, Result, ok, err, ltb, eqb, ◌||◌, ◌&&◌,
  not, if◌then◌else◌, insert, contains,
}
use cloudzero_agent.Shipper.Names.{get_remote_file_id}

pub data ShipError : Type 0 where
  unauthorized invalid_shipper_id encode_body get_remote_base http_request_failed http_unknown
        invalid_body :
      ShipError
  expired_url create_directory create_lock files_list file_create file_read inspection
        rename_failed :
      ShipError

-- A response: what `io.ReadAll` gets of its body, and whether it reads all of it.
pub record Response : Type 0 where
  pub status : ℕ
  pub body : String
  pub is_readable : Bool

-- The answer to a request for URLs: its body as a map, where it is one, and the items of the header for
-- replays, where it is there and can be parsed.
pub record Reply : Type 0 where
  pub response : Response
  pub allocation : Option (List (String × String))
  pub replay : Option (List (String × String))

pub record Env : Type 0 where
  pub shipper_id : Option String
  pub post_files : String → List String → Option Reply
  pub put : String → String → Option Response
  pub inspect_fails : Response → Bool
  pub read_file : String → Option String
  pub can_request : String → Bool
  pub can_open : String → Bool
  pub can_walk : Bool
  pub can_mkdir : Bool
  pub can_rename : String → Bool
  pub can_remove : String → Bool
  pub base_dir : String

-- The error of the status, and that of the inspector.
unfoldable pub inspect_http_response : Env → Response → Option ShipError
inspect_http_response env r =
    let inspected = if env.inspect_fails r then some inspection else none in
    if ltb r.status 300
    then inspected
    else if eqb r.status 403 || eqb r.status 401
    then some unauthorized
    else some http_unknown

pub record AllocatePresignedUrlsResponse : Type 0 where
  pub allocation : List (String × String)
  pub replay : List (String × String)

-- The items of the header, one by one.
unfoldable pub replay_map : List (String × String) → List (String × String) → List (String × String)
replay_map replay [] = replay
replay_map replay ((ref_id, url) ∷ items) = replay_map (insert ref_id url replay) items

abbrev pub replay_of : Option (List (String × String)) → List (String × String)
replay_of none = []
replay_of (some items) = replay_map [] items

abbrev pub decode_reply :
    Option (List (String × String)) → Reply → Result ShipError AllocatePresignedUrlsResponse
decode_reply none reply = err invalid_body
decode_reply (some allocation) reply =
    ok (record { allocation = allocation; replay = replay_of reply.replay })

abbrev pub inspect_reply : Option ShipError → Reply → Result ShipError AllocatePresignedUrlsResponse
inspect_reply (some e) reply = err e
inspect_reply none reply = decode_reply reply.allocation reply

abbrev pub after_post : Env → Option Reply → Result ShipError AllocatePresignedUrlsResponse
after_post env none = err http_request_failed
after_post env (some reply) = inspect_reply (inspect_http_response env reply.response) reply

abbrev pub allocate_as :
    Env → Option String → List String → Result ShipError AllocatePresignedUrlsResponse
allocate_as env none files = err invalid_shipper_id
allocate_as env (some id) files = after_post env (env.post_files id (map get_remote_file_id files))

unfoldable pub allocate_presigned_urls :
    Env → List String → Result ShipError AllocatePresignedUrlsResponse
unfolding replay_map inspect_http_response get_remote_file_id
allocate_presigned_urls env files = allocate_as env env.shipper_id files

-- `UploadFileRequest`: the location of the file and the URL.
pub record UploadFileRequest : Type 0 where
  pub file : String
  pub presigned_url : String

-- The body of a refusal is searched only where reading it fails.
abbrev pub is_expired : Response → Bool
is_expired r = eqb r.status 403 && not r.is_readable && contains r.body "Request has expired"

abbrev pub after_put : Env → Option Response → Option ShipError
after_put env none = some http_request_failed
after_put env (some r) = if is_expired r then some expired_url else inspect_http_response env r

abbrev pub put_data : Env → String → Option String → Option ShipError
put_data env url none = some file_read
put_data env url (some bytes) =
    if env.can_request url then after_put env (env.put url bytes) else some http_unknown

-- `none` is the nil error.
unfoldable pub upload_file : Env → UploadFileRequest → Option ShipError
unfolding inspect_http_response contains
upload_file env req = put_data env req.presigned_url (env.read_file req.file)
