-- ===== src/Config/Detect.antt =====
-- `DetectConfiguration` of app/utils/scout/detect_configuration.go. What the scout finds out is a
-- parameter; a pointer that can be nil is an option.
use cloudzero_agent.Base.{
  String, Bool, false, Option, none, some, not, is_some, ◌||◌, ◌==◌, Result, ok, err, ◌>>=◌,
  if◌then◌else◌,
}

-- `EnvironmentInfo`
pub record EnvironmentInfo : Type 0 where
  pub is_unknown : Bool
  pub region : String
  pub account_id : String
  pub cluster_name : String

pub record Values : Type 0 where
  pub region : Option String
  pub account_id : Option String
  pub cluster_name : Option String

abbrev pub is_missing : Option String → Bool
is_missing none = false
is_missing (some v) = v == ""

abbrev pub needs_detection : Values → Bool
needs_detection v = is_missing v.region || is_missing v.account_id || is_missing v.cluster_name

-- A detected value wins over the given one.
unfoldable pub resolve : String → String → Option String → Result String (Option String)
resolve message detected none = ok none
resolve message detected (some v) =
    if not (detected == "")
    then ok (some detected)
    else (if v == "" then err message else ok (some v))

unfoldable pub resolve_all : EnvironmentInfo → Values → Result String Values
unfolding resolve
resolve_all ei v = do
  r ← resolve "region could not be auto-detected" ei.region v.region
  a ← resolve "account ID could not be auto-detected" ei.account_id v.account_id
  c ← resolve "cluster name could not be auto-detected" ei.cluster_name v.cluster_name
  ok (record { region = r; account_id = a; cluster_name = c })

abbrev pub unless_needed : String → Values → Result String Values
unless_needed message v = if needs_detection v then err message else ok v

unfoldable pub detect : Result String EnvironmentInfo → Values → Result String Values
unfolding resolve_all
detect (err e) v = unless_needed "failed to detect cloud provider" v
detect (ok ei) v =
    if ei.is_unknown
    then unless_needed "cloud provider could not be auto-detected" v
    else resolve_all ei v

unfoldable pub detect_configuration : Result String EnvironmentInfo → Values → Result String Values
unfolding detect
detect_configuration scout v =
    if is_some v.region || is_some v.account_id || is_some v.cluster_name
    then detect scout v
    else ok v
