-- ===== src/Shipper/Names.antt =====
-- Names of files: `UniqueID` (app/storage/disk/metric_file.go), `GetRemoteFileID` and `GetRootFileID`
-- (app/domain/shipper/utils.go), and `Find` (app/storage/disk/disk.go) over a list of paths.
use Prim.Native.String.{String}
use cloudzero_agent.Base.{
  Bool, List, [], ◌∷◌, select, ◌&&◌, ◌||◌, ◌==◌, ◌++ₛ◌, if◌then◌else◌, before, split, contains,
  has_suffix,
}

abbrev last_part : String → List String → String
last_part part [] = part
last_part part (p ∷ parts) = last_part (if p == "" then part else p) parts

-- `filepath.Base`, with its answers for the empty path and for a path of slashes.
unfoldable pub base_name : String → String
unfolding split
base_name path =
    let part = last_part "" (split b'/' path) in
    if path == "" then "." else if part == "" then "/" else part

unfoldable pub unique_id : String → String
unfolding base_name before
unique_id location = before b'.' (base_name location)

unfoldable pub get_remote_file_id : String → String
unfolding unique_id
get_remote_file_id location = unique_id location ++ₛ ".parquet"

unfoldable pub get_root_file_id : String → String
unfolding base_name before
get_root_file_id file = before b'.' (base_name file)

-- The filters of `Find` on one file.
unfoldable pub is_found : String → String → String → Bool
unfolding base_name contains has_suffix
is_found filter_name filter_extension path =
    (filter_name == "" || contains (base_name path) filter_name)
    && (filter_extension == "" || has_suffix (base_name path) filter_extension)

-- The files that a walk visits, in order.
unfoldable pub find : String → String → List String → List String
unfolding is_found
find filter_name filter_extension paths = select (is_found filter_name filter_extension) paths

unfoldable pub cost_content_identifier : String
cost_content_identifier = "metrics"

unfoldable pub uploaded_sub_directory : String
uploaded_sub_directory = "uploaded"

-- Joins two texts one character at a time.
unfoldable pub join_text : String → String → String
join_text String.[] t = t
join_text (String.◌∷◌ c s) t = String.◌∷◌ c (join_text s t)

-- The place of an uploaded file below a base directory without a slash at its end.
unfoldable pub uploaded_path : String → String → String
unfolding base_name join_text
uploaded_path base_dir location = join_text base_dir (join_text "/uploaded/" (base_name location))
