-- ===== src/Config/Validated.antt =====
-- What valid settings have.
use cloudzero_agent.Base.{
  ℕ, ◌*◌, String, Bool, true, false, Option, none, some, not, eqb, ◌&&◌, ◌==◌, trim_space, Result,
  ok, err, Result-cases, Bool-cases, inl, inr, ◌≡◌, refl, arith,
}
use cloudzero_agent.Config.Detect.{
  EnvironmentInfo, Values, resolve, resolve_all, unless_needed, detect, detect_configuration,
}
use cloudzero_agent.Config.Gator.{
  minute, Database, ServerSettings, Cloudzero, GatorSettings, Host, or_default, or_text,
  validate_database, validate_server, validate_cloudzero, given_values, validate_detected,
  validate_settings,
}

-- Whether a result satisfies a test; an error does.
abbrev pub holds {ℓ} : {A : Type ℓ} → (A → Bool) → Result String A → Bool
holds p (err e) = true
holds p (ok a) = p a

-- A value that is there and not empty.
abbrev filled : Option String → Bool
filled none = false
filled (some v) = not (v == "")

abbrev pub all_filled : Values → Bool
all_filled v = filled v.region && filled v.account_id && filled v.cluster_name

abbrev given : String → String → String → Values
given r a c = record { region = some r; account_id = some a; cluster_name = some c }

resolve-filled :
    (message detected v : String) → holds filled (resolve message detected (some v)) ≡ true
unfolding resolve
resolve-filled message detected v = ground arith

resolve_all-filled :
    (ei : EnvironmentInfo) (r a c : String) → holds all_filled (resolve_all ei (given r a c)) ≡ true
unfolding resolve_all
resolve_all-filled ei r a c = ground (
  arith,
  resolve-filled "region could not be auto-detected" ei.region r,
  resolve-filled "account ID could not be auto-detected" ei.account_id a,
  resolve-filled "cluster name could not be auto-detected" ei.cluster_name c,
)

unless_needed-filled :
    (message r a c : String) → holds all_filled (unless_needed message (given r a c)) ≡ true
unless_needed-filled message r a c = ground arith

detect_configuration-filled :
    (scout : Result String EnvironmentInfo) (r a c : String)
    → holds all_filled (detect_configuration scout (given r a c)) ≡ true
unfolding detect_configuration detect
detect_configuration-filled (err e) r a c =
    unless_needed-filled "failed to detect cloud provider" r a c
detect_configuration-filled (ok ei) r a c = elim (Bool-cases ei.is_unknown) [
  | inl u ↦ rw u (unless_needed-filled "cloud provider could not be auto-detected" r a c)
  | inr u ↦ rw u (resolve_all-filled ei r a c)
]

abbrev pub is_valid_database : Database → Bool
is_valid_database d =
    not (eqb d.max_records 0)
    && not (eqb d.cost_max_interval 0)
    && not (eqb d.observability_max_interval 0)

abbrev pub is_valid_cloudzero : Cloudzero → Bool
is_valid_cloudzero c =
    not (c.host == "")
    && not (c.api_key_path == "")
    && not (eqb c.send_interval 0)
    && not (eqb c.send_timeout 0)
    && not (eqb c.rotate_interval 0)

abbrev pub is_valid_server : ServerSettings → Bool
is_valid_server s = not (s.mode == "") && not (eqb s.port 0)

-- Nothing that the program needs is empty or zero.
abbrev pub is_valid_settings : GatorSettings → Bool
is_valid_settings s =
    not (s.region == "")
    && not (s.cloud_account_id == "")
    && not (s.cluster_name == "")
    && is_valid_server s.server
    && is_valid_database s.database
    && is_valid_cloudzero s.cloudzero

or_default-positive : (default n : ℕ) → eqb default 0 ≡ false → eqb (or_default default n) 0 ≡ false
or_default-positive default n h = ground arith

or_text-filled : (default t : String) → (default == "") ≡ false → (or_text default t == "") ≡ false
or_text-filled default t h = elim (Bool-cases (t == "")) [
  | inl e ↦ rw e h
  | inr e ↦ rw e (rw e refl)
]

validate_database-valid :
    (h : Host) (d : Database) → holds is_valid_database (validate_database h d) ≡ true
unfolding validate_database
validate_database-valid h d = ground arith

validate_cloudzero-valid :
    (h : Host) (c : Cloudzero) → holds is_valid_cloudzero (validate_cloudzero h c) ≡ true
unfolding validate_cloudzero
validate_cloudzero-valid h c = elim (Bool-cases (c.api_key_path == "")) [
  | inl k ↦ rw k refl
  | inr k ↦ elim (Bool-cases (h.is_missing c.api_key_path)) [
    | inl m ↦ rw (k, m) refl
    | inr m ↦
        rw
          (
            k,
            m,
            or_text-filled "api.cloudzero.com" c.host refl,
            or_default-positive (10 * minute) c.send_interval refl,
            or_default-positive 10000 c.send_timeout refl,
            or_default-positive (10 * minute) c.rotate_interval refl,
          )
          (rw k refl)
  ]
]

validate_server-valid : (s : ServerSettings) → is_valid_server (validate_server s) ≡ true
unfolding validate_server
validate_server-valid s =
    rw (or_text-filled "http" s.mode refl, or_default-positive 8080 s.port refl) refl

validate_detected-valid :
    (h : Host) (s : GatorSettings) (v : Values)
    → all_filled v ≡ true
    → holds is_valid_settings (validate_detected h s v) ≡ true
unfolding validate_detected
validate_detected-valid h s v f = ground (
  arith,
  validate_database-valid h s.database,
  validate_cloudzero-valid h s.cloudzero,
  validate_server-valid s.server,
)

-- Settings that pass the validation have a region, an account, a cluster name, a mode, a port, a host
-- and a path of the key that are not empty, and limits and intervals above 0, whatever the scout
-- finds out and whatever was left out of the files.
pub validate_settings-valid :
    (h : Host) (s : GatorSettings) → holds is_valid_settings (validate_settings h s) ≡ true
unfolding validate_settings
validate_settings-valid h s = elim (Result-cases (detect_configuration h.scout (given_values s))) [
  | inr (e, f) ↦ rw f refl
  | inl (v, f) ↦ rw f (
      validate_detected-valid h s v (
        rw f at (
          detect_configuration-filled h.scout (trim_space s.region) (trim_space s.cloud_account_id)
            s.cluster_name)))
]
