-- ===== src/Config/Gator.antt =====
-- `Validate` of app/config/gator/settings.go. Durations are milliseconds; a negative one, which counts
-- like 0 in every test, is 0. Whether a path exists and a quantity parses are parameters.
use cloudzero_agent.Base.{
  ℕ, ◌*◌, String, Bool, Option, none, some, eqb, ◌==◌, trim_space, Result, ok, err, ◌>>=◌,
  if◌then◌else◌,
}
use cloudzero_agent.Config.Detect.{EnvironmentInfo, Values, detect_configuration}

pub record Database : Type 0 where
  pub storage_path : String
  pub max_records : ℕ
  pub cost_max_interval : ℕ
  pub observability_max_interval : ℕ
  pub available_storage : String

pub record ServerSettings : Type 0 where
  pub mode : String
  pub port : ℕ

pub record Cloudzero : Type 0 where
  pub api_key_path : String
  pub rotate_interval : ℕ
  pub send_interval : ℕ
  pub send_timeout : ℕ
  pub host : String

pub record GatorSettings : Type 0 where
  pub cloud_account_id : String
  pub region : String
  pub cluster_name : String
  pub server : ServerSettings
  pub database : Database
  pub cloudzero : Cloudzero

-- What the validation asks of its host.
pub record Host : Type 0 where
  pub scout : Result String EnvironmentInfo
  pub is_missing : String → Bool
  pub parses_quantity : String → Bool

abbrev pub minute : ℕ
minute = 60000

abbrev pub or_default : ℕ → ℕ → ℕ
or_default default n = if eqb n 0 then default else n

abbrev pub or_text : String → String → String
or_text default t = if t == "" then default else t

abbrev pub database_defaults : Database → Database
database_defaults d = record d {
  max_records = or_default 1500000 d.max_records;
  cost_max_interval = or_default (10 * minute) d.cost_max_interval;
  observability_max_interval = or_default (30 * minute) d.observability_max_interval;
}

-- `Database.Validate`
unfoldable pub validate_database : Host → Database → Result String Database
validate_database h d =
    if h.is_missing d.storage_path
    then err "database storage path does not exist"
    else (if d.available_storage == ""
        then ok (database_defaults d)
        else (if h.parses_quantity d.available_storage
            then ok (database_defaults d)
            else err "failed to parse the size_limit quantity"))

-- `Server.Validate`
unfoldable pub validate_server : ServerSettings → ServerSettings
validate_server s = record { mode = or_text "http" s.mode; port = or_default 8080 s.port }

abbrev pub cloudzero_defaults : Cloudzero → Cloudzero
cloudzero_defaults c = record c {
  host = or_text "api.cloudzero.com" c.host;
  send_interval = or_default (10 * minute) c.send_interval;
  send_timeout = or_default 10000 c.send_timeout;
  rotate_interval = or_default (10 * minute) c.rotate_interval;
}

-- `Cloudzero.Validate`
unfoldable pub validate_cloudzero : Host → Cloudzero → Result String Cloudzero
validate_cloudzero h c =
    if c.api_key_path == ""
    then err "API key path is empty"
    else (if h.is_missing c.api_key_path
        then err "API key path does not exist"
        else ok (cloudzero_defaults c))

abbrev text_of : Option String → String
text_of none = ""
text_of (some t) = t

abbrev pub given_values : GatorSettings → Values
given_values s = record {
  region = some (trim_space s.region);
  account_id = some (trim_space s.cloud_account_id);
  cluster_name = some s.cluster_name;
}

-- `Settings.Validate` after the detection.
unfoldable pub validate_detected : Host → GatorSettings → Values → Result String GatorSettings
unfolding validate_database validate_server validate_cloudzero trim_space
validate_detected h s v =
    if trim_space (text_of v.cluster_name) == "" then err "cluster name is empty" else (do
      d ← validate_database h s.database
      c ← validate_cloudzero h s.cloudzero
      ok (record {
        cloud_account_id = text_of v.account_id;
        region = text_of v.region;
        cluster_name = trim_space (text_of v.cluster_name);
        server = validate_server s.server;
        database = d;
        cloudzero = c;
      }))

-- `Settings.Validate`
unfoldable pub validate_settings : Host → GatorSettings → Result String GatorSettings
unfolding validate_detected detect_configuration
validate_settings h s = do
  v ← detect_configuration h.scout (given_values s)
  validate_detected h s v
