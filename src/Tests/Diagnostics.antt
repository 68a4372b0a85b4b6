-- ===== src/Tests/Diagnostics.antt =====
-- Two required checks, one of which does not pass.
use cloudzero_agent.Base.{
  String, Bool, true, false, Option, none, some, List, [], ◌∷◌, any, ok, ◌==◌, ◌≡◌, ◌≢◌, refl,
  arith, trim_space, if◌then◌else◌,
}
use cloudzero_agent.Diagnostics.Config.{CheckConfig, Stage, normal, validate_check, validate}
use cloudzero_agent.Diagnostics.Catalog.{add_check, Provider, Checks, Registry, create_registry}
use cloudzero_agent.Diagnostics.Runner.{Runner, new_runner, run, should_fail}
use cloudzero_agent.Diagnostics.Stages.{new_runner-validated}
use cloudzero_agent.Diagnostics.Failures.{writes_check, all_writes, should_fail-errors}
use cloudzero_agent.Diagnostics.Required.{breaks, should_fail-run}
use cloudzero_agent.Diagnostics.Outcome.{EndsRight, run-init_state}

abbrev reports : String → Bool → Provider
reports name passing = record {
  writes = add_check (record { name = name; passing = passing; error = "" }) ∷ [];
  error = none;
}

abbrev checks : Checks
checks = record {
  api_key = reports "api_key_valid" false;
  k8s_version = reports "k8s_version" true;
  k8s_namespace = reports "k8s_namespace" true;
  k8s_provider = reports "k8s_provider" true;
  kms = record { writes = []; error = some "unreachable" };
  scrape_config = reports "scrape_cfg" true;
  prometheus_version = reports "prometheus_version" true;
  insights_ingress = reports "webhook_server_reachable" true;
  istio = reports "istio_xcluster_lb" true;
}

abbrev required : String → CheckConfig
required name = record { name = name; check_type = "required" }

abbrev stage_of : List CheckConfig → Stage
stage_of cs = record { name = "pre-start"; checks = cs }

abbrev registry_or : Option Registry → Registry
registry_or none = []
registry_or (some r) = r

abbrev registry : Registry
registry = registry_or (create_registry checks)

registry_made : create_registry checks ≡ some registry
unfolding create_registry
registry_made = refl

abbrev two_required : List CheckConfig
two_required = required "api_key_valid" ∷ required "k8s_version" ∷ []

abbrev runner : Runner
runner =
    new_runner (stage_of (required "api_key_valid" ∷ required "k8s_version" ∷ []) ∷ []) registry
      "pre-start"

should_fail-run_example :
    should_fail (run (1 ∷ []) (new_runner (stage_of two_required ∷ []) registry "pre-start")).runner
    ≡ any
        (writes_check (breaks "pre-start" (stage_of two_required ∷ [])))
        (all_writes (new_runner (stage_of two_required ∷ []) registry "pre-start"))
unfolding create_registry new_runner
should_fail-run_example =
    should_fail-run (1 ∷ []) (stage_of two_required ∷ []) registry "pre-start" refl refl refl refl

-- A provider returns an error, so that the check that fails does not count.
abbrev erring : Runner
erring =
    new_runner
      (stage_of (required "api_key_valid" ∷ required "kube_state_metrics_reachable" ∷ []) ∷ [])
      registry "pre-start"

erring_errors : (run [] erring).errors ≡ "unreachable" ∷ []
unfolding create_registry new_runner run
erring_errors = refl

erring_errs : (run [] erring).errors ≢ []
erring_errs e = absurd (ground (arith, rw erring_errors at e))

should_fail-errors_example : should_fail (run [] erring).runner ≡ erring.required_failures
should_fail-errors_example = should_fail-errors [] erring erring_errs

run-init_state_example : EndsRight (run (1 ∷ []) runner)
unfolding create_registry new_runner run
run-init_state_example =
    run-init_state (1 ∷ []) checks registry
      (stage_of (required "api_key_valid" ∷ required "k8s_version" ∷ []) ∷ []) registry_made refl

abbrev lower_of : String → String
lower_of text = if text == "Pre-Start" then "pre-start" else text

abbrev misspelled : List Stage
misspelled = record { name = "Pre-Start"; checks = required "api_key_valid" ∷ [] } ∷ []

api_key_is_valid :
    validate_check lower_of (required "api_key_valid") ≡ ok (required "api_key_valid")
unfolding validate_check trim_space
api_key_is_valid = refl

misspelled_name : normal lower_of "Pre-Start" ≡ "pre-start"
unfolding trim_space
misspelled_name = refl

spelled_name : normal lower_of "pre-start" ≡ "pre-start"
unfolding trim_space
spelled_name = refl

new_runner-validated_example :
    (out : List Stage) × (validate lower_of misspelled ≡ ok out)
    × ((new_runner out registry "pre-start").plan ≡ [])
new_runner-validated_example =
    new_runner-validated lower_of misspelled registry spelled_name
      ((misspelled_name, refl, ((required "api_key_valid", api_key_is_valid), tt)), tt)
