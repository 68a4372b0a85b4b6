-- ===== src/Tests/Requests.antt =====
-- A shipper with a cost file and an observability file.
use cloudzero_agent.Base.{
  String, true, false, Option, none, some, List, [], ◌∷◌, map, ◌==◌, eq_iff, eq_refl, is_some,
  lookup, has_prefix, contains, has_suffix, before, split, insert, Bool-cases, inl, inr, ◌≡◌, refl,
  arith,
}
use cloudzero_agent.Shipper.Chunk.{chunk, chunk_from}
use cloudzero_agent.Shipper.Names.{
  base_name, unique_id, get_remote_file_id, get_root_file_id, is_found, find, join_text,
  uploaded_path, cost_content_identifier, uploaded_sub_directory,
}
use cloudzero_agent.Shipper.Upload.{
  unauthorized, Response, Env, inspect_http_response, replay_map, allocate_presigned_urls,
  upload_file,
}
use cloudzero_agent.Shipper.Request.{
  Shipper, is_in, mark_file_uploaded, keep_or_remove, run_upload, run_uploads, allocated_requests,
  replayed_requests, abandon_requests, handle_requests, handle_chunks, handle_request,
  process_files,
}
use cloudzero_agent.Shipper.Identity.{IdFile, Host, get_shipper_id, Abandon, abandon_files}
use cloudzero_agent.Shipper.Request.Safety.{is_safe, process_files-is_safe}
use cloudzero_agent.Shipper.Request.Leaving.{IsHealthy}
use cloudzero_agent.Shipper.Request.Shipping.{process_files-ships}

program : Unit {0}
unfolding process_files handle_request handle_chunks handle_requests abandon_requests
    replayed_requests allocated_requests run_uploads run_upload keep_or_remove mark_file_uploaded
    upload_file allocate_presigned_urls replay_map inspect_http_response uploaded_path join_text
    find is_found get_root_file_id get_remote_file_id unique_id base_name cost_content_identifier
    uploaded_sub_directory chunk chunk_from has_prefix contains has_suffix before split insert
    lookup
program = tt

abbrev accepted : Response
accepted = record { status = 200; body = ""; is_readable = true }

abbrev with_url : String → String × String
with_url id = (id, "https")

abbrev env_with : Option (List (String × String)) → Env
env_with replay = record {
  shipper_id = some "shipper";
  post_files = λ id ids.
      some (record { response = accepted; allocation = some (map with_url ids); replay = replay });
  put = λ url bytes. some accepted;
  inspect_fails = λ r. false;
  read_file = λ f. some f;
  can_request = λ url. true;
  can_open = λ f. true;
  can_walk = true;
  can_mkdir = true;
  can_rename = λ f. true;
  can_remove = λ f. true;
  base_dir = "/data";
}

abbrev cost_file : String
cost_file = "/data/metrics_1_2.json.br"

abbrev observability_file : String
observability_file = "/data/observability_1_2.json.br"

abbrev before_cycle : Shipper
before_cycle = record {
  files = cost_file ∷ observability_file ∷ [];
  sent = [];
  shipped_files = 0;
  abandoned = [];
}

shipped :
    (process_files
      (env_with none)
      none
      (some (cost_file ∷ observability_file ∷ []))
      before_cycle).1.files
    ≡ "/data/uploaded/metrics_1_2.json.br" ∷ []
unfolding program
shipped = refl

-- A reference that is the beginning of the name of another file: that file is uploaded in its place.
replayed :
    (process_files
      (env_with (some (("metrics_1.parquet", "https") ∷ [])))
      none
      (some (observability_file ∷ []))
      before_cycle).1
    ≡ record {
      files = "/data/uploaded/metrics_1_2.json.br" ∷ [];
      sent = cost_file ∷ observability_file ∷ [];
      shipped_files = 2;
      abandoned = "metrics_1.parquet" ∷ [];
    }
unfolding program
replayed = refl

covered :
    (files : List String) (file : String)
    → is_in file files ≡ true
    → is_some (lookup (get_remote_file_id file) (map with_url (map get_remote_file_id files)))
      ≡ true
unfolding lookup
covered [] file h = absurd (ground arith)
covered (f ∷ files) file h = elim (Bool-cases (f == file)) [
  | inl e ↦ rw ((eq_iff f file).0 e, eq_refl (get_remote_file_id file)) refl
  | inr e ↦ ground (arith, covered files file (rw e at h))
]

healthy : IsHealthy (env_with none)
unfolding allocate_presigned_urls inspect_http_response upload_file
healthy = record {
  urls = λ files. record { allocation = map with_url (map get_remote_file_id files); replay = [] };
  allocates = λ files. refl;
  covers = covered;
  no_replay = λ files. refl;
  uploads = λ req. refl;
  opens = λ file. refl;
  makes = refl;
  renames = λ file. refl;
  removes = λ file. refl;
}

process_files-ships_example :
    (t : Shipper) × (process_files
        (env_with none)
        none
        (some (cost_file ∷ observability_file ∷ []))
        before_cycle
      ≡ (none, t))
    × (is_in cost_file t.files ≡ false)
unfolding program
process_files-ships_example =
    process_files-ships (env_with none) healthy cost_file (cost_file ∷ observability_file ∷ [])
      before_cycle refl refl

process_files-is_safe_example :
    is_safe cost_file
      (process_files (env_with none) none (some (observability_file ∷ [])) before_cycle).1
    ≡ true
process_files-is_safe_example =
    process_files-is_safe (env_with none) cost_file none (some (observability_file ∷ []))
      before_cycle refl

abbrev host : Host
host = record {
  id_file = IdFile.missing;
  can_create = true;
  can_write = true;
  hostname = some "pod-1";
  new_uuid = "uuid";
}

id_of_host : get_shipper_id host "" ≡ (some "pod-1", "pod-1")
unfolding get_shipper_id
id_of_host = refl

abbrev abandon : Abandon
abandon = record {
  can_encode = true;
  has_base = true;
  can_request = true;
  post = λ id payload. some (record accepted { status = 401 });
}

refused : abandon_files (env_with none) abandon ("metrics_1.parquet" ∷ []) ≡ some unauthorized
unfolding abandon_files inspect_http_response
refused = refl
