-- ===== src/Tests/Config.antt =====
-- Settings with a region that the scout corrects, and without a port.
use cloudzero_agent.Base.{true, false, ok, ◌≡◌}
use cloudzero_agent.Config.Gator.{GatorSettings, Host, validate_settings}
use cloudzero_agent.Config.Validated.{holds, is_valid_settings, validate_settings-valid}

abbrev host : Host
host = record {
  scout =
      ok (record { is_unknown = false; region = "us-east-1"; account_id = "1"; cluster_name = "" });
  is_missing = λ path. false;
  parses_quantity = λ text. true;
}

abbrev settings : GatorSettings
settings = record {
  cloud_account_id = "";
  region = "us-west-2";
  cluster_name = "prod";
  server = record { mode = ""; port = 0 };
  database = record {
    storage_path = "/data";
    max_records = 0;
    cost_max_interval = 0;
    observability_max_interval = 5;
    available_storage = "";
  };
  cloudzero = record {
    api_key_path = "/key";
    rotate_interval = 0;
    send_interval = 7;
    send_timeout = 0;
    host = "";
  };
}

validate_settings-valid_example : holds is_valid_settings (validate_settings host settings) ≡ true
validate_settings-valid_example = validate_settings-valid host settings
