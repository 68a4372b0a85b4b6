-- ===== src/Shipper/Request/Safety.antt =====
-- Files that leave their place in a cycle of the shipper, whatever fails in it.
use cloudzero_agent.Base.{
  String, Bool, true, false, Option, none, some, List, [], ◌∷◌, ◌++◌, all, ◌&&◌, ◌||◌, Result, ok,
  err, ◌==◌, eq_iff, Bool-cases, inl, inr, ◌≡◌, refl, arith,
}
use cloudzero_agent.Lock.Defs.{LockError, context_cancelled}
use cloudzero_agent.Shipper.Chunk.{chunk}
use cloudzero_agent.Shipper.Names.{uploaded_path}
use cloudzero_agent.Shipper.Upload.{
  ShipError, Env, AllocatePresignedUrlsResponse, allocate_presigned_urls, UploadFileRequest,
  upload_file,
}
use cloudzero_agent.Shipper.Request.{
  Shipper, is_in, remove_path, rename_path, mark_file_uploaded, keep_or_remove, after_upload,
  run_upload, run_uploads, allocated_requests, replayed_requests, handle_requests, no_entries,
  handle_allocated, next_chunk, handle_chunks, handle_request, process_files,
}

-- The path is there, or its file was uploaded.
abbrev pub is_safe : String → Shipper → Bool
is_safe path s = is_in path s.files || is_in path s.sent

is_in-remove_path :
    (path removed : String) (files : List String)
    → (removed == path) ≡ false
    → is_in path files ≡ true
    → is_in path (remove_path removed files) ≡ true
is_in-remove_path path removed [] n h = h
is_in-remove_path path removed (f ∷ files) n h = ground (
  arith,
  eq_iff f path,
  eq_iff f removed,
  eq_iff removed path,
  is_in-remove_path path removed files n,
)

is_in-rename_path :
    (path old new : String) (files : List String)
    → (old == path) ≡ false
    → is_in path files ≡ true
    → is_in path (rename_path old new files) ≡ true
is_in-rename_path path old new files n h = elim (Bool-cases (new == path)) [
  | inl f ↦ rw f refl
  | inr f ↦
      rw f (
        is_in-remove_path path new (remove_path old files) f (is_in-remove_path path old files n h))
]

-- The step that follows an upload removes no other path.
keep_or_remove-others :
    (env : Env) (path location : String) (s : Shipper)
    → (location == path) ≡ false
    → is_in path s.files ≡ true
    → is_in path (keep_or_remove env location s).files ≡ true
unfolding keep_or_remove mark_file_uploaded
keep_or_remove-others env path location s n h = ground (
  arith,
  is_in-remove_path path location s.files n h,
  is_in-rename_path path location (uploaded_path env.base_dir location) s.files n h,
)

keep_or_remove_sent :
    (env : Env) (location : String) (s : Shipper) → (keep_or_remove env location s).sent ≡ s.sent
unfolding keep_or_remove mark_file_uploaded
keep_or_remove_sent env location s = ground arith

after_upload-is_safe :
    (env : Env) (path location : String) (e : Option ShipError) (s : Shipper)
    → is_safe path s ≡ true
    → is_safe path (after_upload env location e s) ≡ true
after_upload-is_safe env path location (some e) s h = h
after_upload-is_safe env path location none s h =
    let sent = record s { sent = location ∷ s.sent } in
    elim (Bool-cases (location == path)) [
      | inl f ↦ rw (keep_or_remove_sent env location sent) (ground (arith, f))
      | inr f ↦ rw (keep_or_remove_sent env location sent) (elim (Bool-cases (is_in path s.files)) [
        | inl g ↦ ground (arith, keep_or_remove-others env path location sent f g)
        | inr g ↦ ground (arith, h, g)
      ])
    ]

run_uploads-is_safe :
    (env : Env) (path : String) (requests : List UploadFileRequest) (s : Shipper)
    → is_safe path s ≡ true
    → is_safe path (run_uploads env requests s) ≡ true
unfolding run_uploads run_upload
run_uploads-is_safe env path [] s h = h
run_uploads-is_safe env path (req ∷ requests) s h =
    run_uploads-is_safe env path requests (run_upload env req s)
      (after_upload-is_safe env path req.file (upload_file env req) s h)

handle_allocated-is_safe :
    (env : Env) (path : String) (files : List String)
    (urls : Result ShipError AllocatePresignedUrlsResponse) (s : Shipper)
    → is_safe path s ≡ true
    → is_safe path (handle_allocated env files urls s).2 ≡ true
unfolding handle_requests
handle_allocated-is_safe env path files (err e) s h = h
handle_allocated-is_safe env path files (ok urls) s h =
    elim (Bool-cases (no_entries urls.allocation && no_entries urls.replay)) [
      | inl f ↦ rw f h
      | inr f ↦ rw f (
          run_uploads-is_safe env path
            (allocated_requests urls.allocation files ++ replayed_requests env s.files urls.replay)
            s h)
    ]

next_chunk-is_safe :
    (path : String) (p : Bool × Option ShipError × Shipper)
    (k : Shipper → Option ShipError × Shipper)
    → is_safe path p.2 ≡ true
    → ((s : Shipper) → is_safe path s ≡ true → is_safe path (k s).1 ≡ true)
    → is_safe path (next_chunk p k).1 ≡ true
next_chunk-is_safe path (true, e, s) k h r = r s h
next_chunk-is_safe path (false, e, s) k h r = h

handle_chunks-is_safe :
    (env : Env) (path : String) (chunks : List (List String)) (s : Shipper)
    → is_safe path s ≡ true
    → is_safe path (handle_chunks env chunks s).1 ≡ true
unfolding handle_chunks
handle_chunks-is_safe env path [] s h = h
handle_chunks-is_safe env path (files ∷ chunks) s h =
    next_chunk-is_safe path (handle_allocated env files (allocate_presigned_urls env files) s)
      (handle_chunks env chunks)
      (handle_allocated-is_safe env path files (allocate_presigned_urls env files) s h)
      (handle_chunks-is_safe env path chunks)

handle_request-is_safe :
    (env : Env) (path : String) (files : List String) (s : Shipper)
    → is_safe path s ≡ true
    → is_safe path (handle_request env files s).1 ≡ true
unfolding handle_request
handle_request-is_safe env path [] s h = h
handle_request-is_safe env path (file ∷ files) s h =
    handle_chunks-is_safe env path (chunk (file ∷ files) 200) s h

-- Whatever the server, the network and the file system answer, and whatever error `ProcessFiles`
-- returns, a path that was there before is there after it, or its file was uploaded.
pub process_files-is_safe :
    (env : Env) (path : String) (acquired : Option LockError) (listed : Option (List String))
    (s : Shipper)
    → is_in path s.files ≡ true
    → is_safe path (process_files env acquired listed s).1 ≡ true
unfolding process_files
process_files-is_safe env path none none s h = rw h refl
process_files-is_safe env path none (some paths) s h = elim (Bool-cases (all env.can_open paths)) [
  | inl f ↦ rw f (handle_request-is_safe env path paths s (rw h refl))
  | inr f ↦ rw (f, h) refl
]
process_files-is_safe env path (some context_cancelled) listed s h = rw h refl
process_files-is_safe env path (some e) listed s h = rw h refl
