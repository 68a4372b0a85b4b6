-- ===== src/Shipper/Request/Shipping.antt =====
-- What a cycle achieves when nothing fails.
use mathlib.Core.List.{append-nil}
use Prim.Native.String.{String}
use cloudzero_agent.Base.{
  Bool, true, false, Option, none, some, List, [], ◌∷◌, ◌++◌, any, all, All, ◌||◌, ◌==◌, eq_refl,
  lookup, is_some, Bool-cases, inl, inr, ◌≡◌, ◌⊎◌, refl, arith,
}
use cloudzero_agent.Shipper.Chunk.{chunk, concat, chunk-concat, FitsChunk}
use cloudzero_agent.Shipper.Names.{get_remote_file_id}
use cloudzero_agent.Shipper.Upload.{Env, allocate_presigned_urls, UploadFileRequest}
use cloudzero_agent.Shipper.Request.{
  Shipper, is_in, run_upload, run_uploads, allocated_requests, request_if, replayed_requests,
  handle_requests, no_entries, handle_allocated, handle_chunks, handle_request, process_files,
}
use cloudzero_agent.Shipper.Request.Leaving.{IsHealthy, contains_uploaded, keep_or_remove-gone}

-- Whether some request is for a file.
abbrev asks_for : String → List UploadFileRequest → Bool
asks_for path requests = any (λ (r : UploadFileRequest). r.file == path) requests

run_upload-gone :
    (env : Env) (w : IsHealthy env) (path : String) (req : UploadFileRequest) (s : Shipper)
    → contains_uploaded path ≡ false
    → ((req.file == path) ≡ true) ⊎ (is_in path s.files ≡ false)
    → is_in path (run_upload env req s).files ≡ false
unfolding run_upload
run_upload-gone env w path req s b h =
    rw (w.uploads req)
      (keep_or_remove-gone env w path req.file (record s { sent = req.file ∷ s.sent }) b h)

run_uploads-gone :
    (env : Env) (w : IsHealthy env) (path : String) (requests : List UploadFileRequest)
    (s : Shipper)
    → contains_uploaded path ≡ false
    → (asks_for path requests ≡ true) ⊎ (is_in path s.files ≡ false)
    → is_in path (run_uploads env requests s).files ≡ false
unfolding run_uploads
run_uploads-gone env w path [] s b (inl f) = absurd (ground arith)
run_uploads-gone env w path [] s b (inr f) = f
run_uploads-gone env w path (req ∷ requests) s b (inr g) =
    run_uploads-gone env w path requests (run_upload env req s) b
      (inr (run_upload-gone env w path req s b (inr g)))
run_uploads-gone env w path (req ∷ requests) s b (inl g) = elim (Bool-cases (req.file == path)) [
  | inl f ↦
      run_uploads-gone env w path requests (run_upload env req s) b
        (inr (run_upload-gone env w path req s b (inl f)))
  | inr f ↦ run_uploads-gone env w path requests (run_upload env req s) b (inl (rw f at g))
]

request_if-asks_for :
    (path file : String) (url : Option String) (requests : List UploadFileRequest)
    → is_some url ≡ true
    → (file == path) || asks_for path requests ≡ true
    → asks_for path (request_if file url requests) ≡ true
request_if-asks_for path file none requests u h = absurd (ground arith)
request_if-asks_for path file (some url) requests u h = h

allocated_requests-asks_for :
    (allocation : List (String × String)) (path : String) (files : List String)
    → ((file : String)
        → is_in file files ≡ true
        → is_some (lookup (get_remote_file_id file) allocation) ≡ true)
    → is_in path files ≡ true
    → asks_for path (allocated_requests allocation files) ≡ true
unfolding allocated_requests
allocated_requests-asks_for allocation path [] c h = absurd (ground arith)
allocated_requests-asks_for allocation path (file ∷ files) c h =
    request_if-asks_for path file (lookup (get_remote_file_id file) allocation)
      (allocated_requests allocation files) (c file (ground (arith, eq_refl file)))
      (elim (Bool-cases (file == path)) [
        | inl f ↦ rw f refl
        | inr f ↦ rw f (
            allocated_requests-asks_for allocation path files (λ g i. c g (ground (arith, i)))
              (rw f at h))
      ])

lookup-no_entries :
    (key : String) (entries : List (String × String))
    → is_some (lookup key entries) ≡ true
    → no_entries entries ≡ false
unfolding lookup
lookup-no_entries key [] h = absurd (ground arith)
lookup-no_entries key (e ∷ entries) h = refl

-- A chunk with a file in it goes on to the next one, without the files that it had.
handle_allocated-gone :
    (env : Env) (w : IsHealthy env) (path file : String) (files : List String) (s : Shipper)
    → contains_uploaded path ≡ false
    → (t : Shipper) × (handle_allocated env
          (file ∷ files)
          (allocate_presigned_urls env (file ∷ files))
          s
        ≡ (true, none, t))
      × ((is_in path (file ∷ files) ≡ true) ⊎ (is_in path s.files ≡ false)
          → is_in path t.files ≡ false)
unfolding replayed_requests handle_requests
handle_allocated-gone env w path file files s b =
    let allocation = (w.urls (file ∷ files)).allocation in
    let requests = allocated_requests allocation (file ∷ files) in
    let entries : no_entries allocation ≡ false =
      lookup-no_entries (get_remote_file_id file) allocation
        (w.covers (file ∷ files) file (ground (arith, eq_refl file))) in
    (
      handle_requests env (requests ++ []) [] s,
      rw (w.allocates (file ∷ files), w.no_replay (file ∷ files), entries) refl,
      λ h. run_uploads-gone env w path (requests ++ []) s b (elim h [
        | inl i ↦ inl (
            rw (append-nil requests) (
              allocated_requests-asks_for allocation path (file ∷ files) (w.covers (file ∷ files))
                i))
        | inr i ↦ inr i
      ]),
    )

is_in-append :
    (path : String) (xs ys : List String) → is_in path (xs ++ ys) ≡ is_in path xs || is_in path ys
is_in-append path [] ys = refl
is_in-append path (x ∷ xs) ys = ground (arith, is_in-append path xs ys)

handle_chunks-gone :
    (env : Env) (w : IsHealthy env) (path : String) (chunks : List (List String)) (s : Shipper)
    → contains_uploaded path ≡ false
    → All (FitsChunk 200) chunks
    → (is_in path (concat chunks) ≡ true) ⊎ (is_in path s.files ≡ false)
    → (t : Shipper) × (handle_chunks env chunks s ≡ (none, t)) × (is_in path t.files ≡ false)
unfolding handle_chunks concat
handle_chunks-gone env w path [] s b fits (inl h) = absurd (ground arith)
handle_chunks-gone env w path [] s b fits (inr h) = (s, refl, h)
handle_chunks-gone env w path ([] ∷ chunks) s b fits h = absurd (omega (arith, fits.0.0))
handle_chunks-gone env w path ((file ∷ files) ∷ chunks) s b fits h =
    let (t, e, gone) = handle_allocated-gone env w path file files s b in
    let (u, k, g) =
      handle_chunks-gone env w path chunks t b fits.1
        (elim (Bool-cases (is_in path (file ∷ files))) [
          | inl i ↦ inr (gone (inl i))
          | inr i ↦ elim h [
            | inl c ↦ inl (ground (arith, i, c, is_in-append path (file ∷ files) (concat chunks)))
            | inr n ↦ inr (gone (inr n))
          ]
        ]) in
    (u, rw e k, g)

all_open : (env : Env) (w : IsHealthy env) (paths : List String) → all env.can_open paths ≡ true
all_open env w [] = refl
all_open env w (p ∷ paths) = ground (arith, w.opens p, all_open env w paths)

handle_request-gone :
    (env : Env) (w : IsHealthy env) (path : String) (paths : List String) (s : Shipper)
    → contains_uploaded path ≡ false
    → is_in path paths ≡ true
    → (t : Shipper) × (handle_request env paths s ≡ (none, t)) × (is_in path t.files ≡ false)
unfolding handle_request
handle_request-gone env w path [] s b h = absurd (ground arith)
handle_request-gone env w path (p ∷ paths) s b h =
    let (whole, fits) = chunk-concat (p ∷ paths) 200 (omega arith) in
    handle_chunks-gone env w path (chunk (p ∷ paths) 200) s b fits (inl (rw whole h))

-- When the lock is acquired, every request for URLs gives one for each of its files and asks for no
-- replay, and uploads and the file system do not fail, `ProcessFiles` returns no error, and no file
-- that `GetFiles` listed is left in its place, unless its path contains the text "uploaded" anywhere.
pub process_files-ships :
    (env : Env) (w : IsHealthy env) (path : String) (paths : List String) (s : Shipper)
    → contains_uploaded path ≡ false
    → is_in path paths ≡ true
    → (t : Shipper) × (process_files env none (some paths) s ≡ (none, t))
      × (is_in path t.files ≡ false)
unfolding process_files
process_files-ships env w path paths s b h =
    let (t, e, g) = handle_request-gone env w path paths s b h in
    (t, rw (all_open env w paths) e, g)
