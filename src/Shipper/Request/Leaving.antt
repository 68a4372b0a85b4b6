-- ===== src/Shipper/Request/Leaving.antt =====
-- Paths that leave their place when nothing fails.
use Prim.Native.String.{String}
use cloudzero_agent.Base.{
  Bool, true, false, none, List, [], ◌∷◌, ok, ◌==◌, eq_iff, contains, has_prefix, lookup, is_some,
  Bool-cases, inl, inr, ◌≡◌, ◌⊎◌, refl, arith,
}
use cloudzero_agent.Shipper.Names.{
  base_name, join_text, get_remote_file_id, uploaded_path, uploaded_sub_directory,
}
use cloudzero_agent.Shipper.Upload.{
  Env, AllocatePresignedUrlsResponse, allocate_presigned_urls, UploadFileRequest, upload_file,
}
use cloudzero_agent.Shipper.Request.{
  Shipper, is_in, remove_path, mark_file_uploaded, keep_or_remove,
}

-- Every request for URLs is answered with a URL for each of its files and no replay, uploads succeed,
-- and so do the calls of the file system.
pub record IsHealthy (env : Env) : Type 0 where
  pub urls : List String → AllocatePresignedUrlsResponse
  pub allocates : (files : List String) → allocate_presigned_urls env files ≡ ok (urls files)
  pub covers :
      (files : List String) (file : String)
      → is_in file files ≡ true
      → is_some (lookup (get_remote_file_id file) (urls files).allocation) ≡ true
  pub no_replay : (files : List String) → (urls files).replay ≡ []
  pub uploads : (req : UploadFileRequest) → upload_file env req ≡ none
  pub opens : (file : String) → env.can_open file ≡ true
  pub makes : env.can_mkdir ≡ true
  pub renames : (file : String) → env.can_rename file ≡ true
  pub removes : (file : String) → env.can_remove file ≡ true

-- The test of `MarkFileUploaded`, which is for the text anywhere in a path.
abbrev pub contains_uploaded : String → Bool
contains_uploaded path = contains path uploaded_sub_directory

uploaded_below :
    (base_dir rest : String)
    → contains (join_text base_dir (join_text "/uploaded/" rest)) "uploaded" ≡ true
unfolding contains has_prefix join_text
uploaded_below String.[] rest = refl
uploaded_below (String.◌∷◌ c base_dir) rest = ground (arith, uploaded_below base_dir rest)

uploaded_path-contains_uploaded :
    (base_dir location : String) → contains_uploaded (uploaded_path base_dir location) ≡ true
unfolding uploaded_path uploaded_sub_directory
uploaded_path-contains_uploaded base_dir location = uploaded_below base_dir (base_name location)

uploaded_path_ne :
    (base_dir location path : String)
    → contains_uploaded path ≡ false
    → (uploaded_path base_dir location == path) ≡ false
uploaded_path_ne base_dir location path h =
    elim (Bool-cases (uploaded_path base_dir location == path)) [
      | inl f ↦ absurd (
          ground (
            arith,
            h,
            rw ((eq_iff (uploaded_path base_dir location) path).0 f) at
                (uploaded_path-contains_uploaded base_dir location),
          ))
      | inr f ↦ f
    ]

is_in-remove_same :
    (path : String) (files : List String) → is_in path (remove_path path files) ≡ false
is_in-remove_same path [] = refl
is_in-remove_same path (f ∷ files) = ground (arith, is_in-remove_same path files)

is_in-remove_path-false :
    (path removed : String) (files : List String)
    → is_in path files ≡ false
    → is_in path (remove_path removed files) ≡ false
is_in-remove_path-false path removed [] h = refl
is_in-remove_path-false path removed (f ∷ files) h =
    ground (arith, h, is_in-remove_path-false path removed files)

-- The file of an upload leaves its place, and a path that has left does not come back.
pub keep_or_remove-gone :
    (env : Env) (w : IsHealthy env) (path location : String) (s : Shipper)
    → contains_uploaded path ≡ false
    → ((location == path) ≡ true) ⊎ (is_in path s.files ≡ false)
    → is_in path (keep_or_remove env location s).files ≡ false
unfolding keep_or_remove mark_file_uploaded
keep_or_remove-gone env w path location s b (inl f) = ground (
  arith,
  w.makes,
  w.renames location,
  w.removes location,
  b,
  f,
  eq_iff location path,
  uploaded_path_ne env.base_dir location path b,
  is_in-remove_same path s.files,
  is_in-remove_path-false path (uploaded_path env.base_dir location) (remove_path path s.files),
)
keep_or_remove-gone env w path location s b (inr f) = ground (
  arith,
  w.makes,
  w.renames location,
  w.removes location,
  b,
  f,
  uploaded_path_ne env.base_dir location path b,
  is_in-remove_path-false path location s.files f,
  is_in-remove_path-false path (uploaded_path env.base_dir location) (remove_path location s.files),
)
