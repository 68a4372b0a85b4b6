-- ===== src/Shipper/Request.antt =====
-- `HandleRequest`, `ProcessFiles`, `MarkFileUploaded` and `AbandonFiles` of app/domain/shipper. The
-- uploads of a chunk run here in the order of the requests; their errors are dropped, as in the source.
pub mod Safety
pub mod Leaving
pub mod Shipping
use cloudzero_agent.Base.{
  ℕ, suc, String, Bool, true, false, Option, none, some, List, [], ◌∷◌, ◌++◌, map, select, any, all,
  not, ◌&&◌, Result, ok, err, ◌==◌, if◌then◌else◌, lookup, has_prefix, contains, Result-cases,
}
use cloudzero_agent.Shipper.Chunk.{chunk}
use cloudzero_agent.Shipper.Names.{
  base_name, unique_id, get_remote_file_id, get_root_file_id, find, cost_content_identifier,
  uploaded_sub_directory, uploaded_path,
}
use cloudzero_agent.Shipper.Upload.{
  ShipError, create_directory, create_lock, files_list, file_create, rename_failed, Env,
  AllocatePresignedUrlsResponse, allocate_presigned_urls, UploadFileRequest, upload_file,
}
use cloudzero_agent.Lock.Defs.{LockError, context_cancelled}

-- The files below the base directory, the files that were uploaded, newest first, `shippedFiles`, and
-- the references that `AbandonFiles` was given.
pub record Shipper : Type 0 where
  pub files : List String
  pub sent : List String
  pub shipped_files : ℕ
  pub abandoned : List String

abbrev pub is_in : String → List String → Bool
is_in name names = any (λ n. n == name) names

abbrev pub remove_path : String → List String → List String
remove_path path files = select (λ f. not (f == path)) files

-- `os.Rename`: a file that has the new name is replaced.
abbrev pub rename_path : String → String → List String → List String
rename_path path new files = new ∷ remove_path new (remove_path path files)

-- `MarkFileUploaded`
unfoldable pub mark_file_uploaded : Env → String → Shipper → Option ShipError × Shipper
unfolding contains uploaded_sub_directory uploaded_path
mark_file_uploaded env location s =
    if not env.can_mkdir
    then (some create_directory, s)
    else if contains location uploaded_sub_directory
    then (none, s)
    else if env.can_rename location
    then (
      none,
      record s { files = rename_path location (uploaded_path env.base_dir location) s.files },
    )
    else (some rename_failed, s)

abbrev pub count_shipped : Option ShipError × Shipper → Shipper
count_shipped (none, s) = record s { shipped_files = suc s.shipped_files }
count_shipped (some e, s) = s

-- What follows an upload: only the files of cost metrics are kept.
unfoldable pub keep_or_remove : Env → String → Shipper → Shipper
unfolding has_prefix unique_id cost_content_identifier mark_file_uploaded
keep_or_remove env location s =
    if has_prefix (unique_id location) cost_content_identifier
    then count_shipped (mark_file_uploaded env location s)
    else count_shipped (
      none,
      if env.can_remove location then record s { files = remove_path location s.files } else s,
    )

abbrev pub after_upload : Env → String → Option ShipError → Shipper → Shipper
after_upload env location (some e) s = s
after_upload env location none s =
    keep_or_remove env location (record s { sent = location ∷ s.sent })

-- The task that is queued for one request.
unfoldable pub run_upload : Env → UploadFileRequest → Shipper → Shipper
unfolding upload_file keep_or_remove
run_upload env req s = after_upload env req.file (upload_file env req) s

unfoldable pub run_uploads : Env → List UploadFileRequest → Shipper → Shipper
unfolding run_upload
run_uploads env [] s = s
run_uploads env (req ∷ requests) s = run_uploads env requests (run_upload env req s)

abbrev pub request_if : String → Option String → List UploadFileRequest → List UploadFileRequest
request_if file none requests = requests
request_if file (some url) requests = record { file = file; presigned_url = url } ∷ requests

-- The files of a chunk that got a URL.
unfoldable pub allocated_requests : List (String × String) → List String → List UploadFileRequest
unfolding lookup get_remote_file_id
allocated_requests allocation [] = []
allocated_requests allocation (file ∷ files) =
    request_if file (lookup (get_remote_file_id file) allocation)
      (allocated_requests allocation files)

abbrev pub request_at : String → String → UploadFileRequest
request_at url file = record { file = file; presigned_url = url }

-- The files that are found for the references to be replayed.
unfoldable pub replayed_requests :
    Env → List String → List (String × String) → List UploadFileRequest
unfolding find get_root_file_id
replayed_requests env files [] = []
replayed_requests env files ((ref_id, url) ∷ replay) =
    let found = if env.can_walk then find (get_root_file_id ref_id) ".json.br" files else [] in
    map (request_at url) (select env.can_open found) ++ replayed_requests env files replay

-- The references to be replayed that no request is for.
unfoldable pub abandon_requests : List UploadFileRequest → List (String × String) → List String
unfolding get_remote_file_id
abandon_requests requests [] = []
abandon_requests requests ((ref_id, url) ∷ replay) =
    let rest = abandon_requests requests replay in
    if any (λ (r : UploadFileRequest). get_remote_file_id r.file == ref_id) requests
    then rest
    else ref_id ∷ rest

abbrev pub no_entries : List (String × String) → Bool
no_entries [] = true
no_entries (e ∷ es) = false

-- The requests of one chunk: uploads, then the abandoned references, whose error is only logged.
unfoldable pub handle_requests :
    Env → List UploadFileRequest → List (String × String) → Shipper → Shipper
unfolding run_uploads abandon_requests
handle_requests env requests replay s =
    let uploaded = run_uploads env requests s in
    record uploaded { abandoned = uploaded.abandoned ++ abandon_requests requests replay }

-- One chunk after `AllocatePresignedURLs`; `true` if the loop goes on.
abbrev pub handle_allocated :
    Env
    → List String
    → Result ShipError AllocatePresignedUrlsResponse
    → Shipper
    → Bool × Option ShipError × Shipper
handle_allocated env files (err e) s = (false, some e, s)
handle_allocated env files (ok urls) s =
    if no_entries urls.allocation && no_entries urls.replay then (false, none, s) else (
      true,
      none,
      handle_requests env
          (allocated_requests urls.allocation files ++ replayed_requests env s.files urls.replay)
          urls.replay s,
    )

abbrev pub next_chunk :
    Bool × Option ShipError × Shipper
    → (Shipper → Option ShipError × Shipper)
    → Option ShipError × Shipper
next_chunk (true, e, s) k = k s
next_chunk (false, e, s) k = (e, s)

unfoldable pub handle_chunks : Env → List (List String) → Shipper → Option ShipError × Shipper
unfolding allocate_presigned_urls handle_requests allocated_requests replayed_requests
handle_chunks env [] s = (none, s)
handle_chunks env (files ∷ chunks) s =
    next_chunk (handle_allocated env files (allocate_presigned_urls env files) s)
      (handle_chunks env chunks)

abbrev pub files_chunk_size : ℕ
files_chunk_size = 200

unfoldable pub handle_request : Env → List String → Shipper → Option ShipError × Shipper
unfolding handle_chunks chunk
handle_request env [] s = (none, s)
handle_request env (file ∷ files) s = handle_chunks env (chunk (file ∷ files) files_chunk_size) s

-- The answer of `GetFiles`, when the lock is held.
abbrev pub process_found : Env → Option (List String) → Shipper → Option ShipError × Shipper
process_found env none s = (some files_list, s)
process_found env (some paths) s =
    if all env.can_open paths then handle_request env paths s else (some file_create, s)

abbrev pub process_locked :
    Env → Option LockError → Option (List String) → Shipper → Option ShipError × Shipper
process_locked env (some context_cancelled) listed s = (none, s)
process_locked env (some e) listed s = (some create_lock, s)
process_locked env none listed s = process_found env listed s

-- `ProcessFiles`, from what `Acquire` and `GetFiles` answer.
unfoldable pub process_files :
    Env → Option LockError → Option (List String) → Shipper → Option ShipError × Shipper
unfolding handle_request
process_files env acquired listed s = process_locked env acquired listed s
