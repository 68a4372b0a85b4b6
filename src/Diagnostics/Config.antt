-- ===== src/Diagnostics/Config.antt =====
-- app/config/validator/diagnostics.go: the checks of each stage and their validation.
-- `strings.ToLower` is a parameter.
use cloudzero_agent.Base.{
  String, Bool, List, [], ◌∷◌, ◌||◌, ◌==◌, ◌++ₛ◌, trim_space, any, Result, ok, err, ◌>>=◌,
  if◌then◌else◌,
}

pub record CheckConfig : Type 0 where
  pub name : String
  pub check_type : String

pub record Stage : Type 0 where
  pub name : String
  pub checks : List CheckConfig

abbrev pub check_type_required : String
check_type_required = "required"

abbrev pub check_type_optional : String
check_type_optional = "optional"

abbrev pub check_type_informative : String
check_type_informative = "informative"

abbrev pub context_stage_init : String
context_stage_init = "pre-start"

abbrev pub context_stage_start : String
context_stage_start = "post-start"

abbrev pub context_stage_stop : String
context_stage_stop = "pre-stop"

abbrev pub context_state_config_load : String
context_state_config_load = "config-load"

abbrev pub diagnostic_names : List String
diagnostic_names =
    "api_key_valid" ∷ "k8s_version" ∷ "k8s_namespace" ∷ "k8s_provider"
    ∷ "kube_state_metrics_reachable" ∷ "scrape_cfg" ∷ "prometheus_version"
    ∷ "webhook_server_reachable" ∷ "agent_settings" ∷ "istio_xcluster_lb" ∷ []

module _ (to_lower : String → String) where
  abbrev pub normal : String → String
  normal text = to_lower (trim_space text)

  unfoldable pub is_valid_stage : String → Bool
  is_valid_stage m =
      normal m == context_stage_init
      || normal m == context_stage_start
      || normal m == context_stage_stop
      || normal m == context_state_config_load

  unfoldable pub is_valid_check_type : String → Bool
  is_valid_check_type t =
      to_lower t == check_type_required
      || to_lower t == check_type_optional
      || to_lower t == check_type_informative

  unfoldable pub is_valid_diagnostic : String → Bool
  is_valid_diagnostic d = any (λ name. normal d == name) diagnostic_names

  abbrev or_optional : String → String
  or_optional t = if t == "" then check_type_optional else t

  -- `CheckConfig.Validate`: the check as it is afterwards.
  unfoldable pub validate_check : CheckConfig → Result String CheckConfig
  unfolding is_valid_diagnostic is_valid_check_type
  validate_check c =
      if is_valid_diagnostic (normal c.name)
      then (if is_valid_check_type (or_optional (normal c.check_type))
          then ok (record { name = normal c.name; check_type = or_optional (normal c.check_type) })
          else err (
              "invalid check type for "
              ++ₛ normal c.name
              ++ₛ ": "
              ++ₛ or_optional (normal c.check_type)))
      else err ("unknown diagnostic check: " ++ₛ normal c.name)

  unfoldable pub validate_checks : List CheckConfig → Result String (List CheckConfig)
  unfolding validate_check
  validate_checks [] = ok []
  validate_checks (c ∷ cs) = do
    valid ← validate_check c
    rest ← validate_checks cs
    ok (valid ∷ rest)

  -- `Stage.Validate`: the stage as it is afterwards.
  unfoldable pub validate_stage : Stage → Result String Stage
  unfolding is_valid_stage validate_checks
  validate_stage s =
      if is_valid_stage (normal s.name)
      then (do
        checks ← validate_checks s.checks
        ok (record { name = normal s.name; checks = checks }))
      else err ("invalid stage: " ++ₛ normal s.name)

  -- `Diagnostics.Validate`: the loop has a copy of each stage, which shares only the checks with it.
  unfoldable pub validate : List Stage → Result String (List Stage)
  unfolding validate_stage
  validate [] = ok []
  validate (s ∷ stages) = do
    copied ← validate_stage s
    rest ← validate stages
    ok (record s { checks = copied.checks } ∷ rest)
