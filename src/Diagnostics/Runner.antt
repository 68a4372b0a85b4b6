-- ===== src/Diagnostics/Runner.antt =====
-- app/domain/diagnostic/runner/runner.go: the providers of a stage run before, at the same time and
-- after. A schedule names the goroutine whose next write reaches the report; what is left at its end
-- follows in order.
use cloudzero_agent.Base.{
  ℕ, zero, suc, String, Bool, false, Option, none, some, List, [], ◌∷◌, ◌++◌, map, not, any, ◌&&◌,
  ◌||◌, ◌==◌, lookup, insert, if◌then◌else◌,
}
use cloudzero_agent.Shipper.Chunk.{concat}
use cloudzero_agent.Diagnostics.Config.{
  CheckConfig, Stage, check_type_required, context_stage_init, context_stage_start,
  context_stage_stop,
}
use cloudzero_agent.Diagnostics.Catalog.{
  StatusType, unspecified, StatusCheck, Write, add_check, set_state, Provider, Registry, get,
}

pub record Report : Type 0 where
  pub state : StatusType
  pub checks : List StatusCheck

pub record Runner : Type 0 where
  pub stage : String
  pub registry : Registry
  pub pre : List Provider
  pub plan : List Provider
  pub post : List Provider
  pub check_types : List (String × String)
  pub required_failures : Bool

abbrev pub check_name : CheckConfig → String
check_name c = c.name

unfoldable pub add_types : List CheckConfig → List (String × String) → List (String × String)
unfolding insert
add_types [] types = types
add_types (c ∷ cs) types = add_types cs (insert c.name c.check_type types)

-- The checks of a stage join the plan.
unfoldable pub add_checks : List CheckConfig → Runner → Runner
unfolding add_types get
add_checks checks r = record r {
  plan = r.plan ++ get (map check_name checks) r.registry;
  check_types = add_types checks r.check_types;
}

-- The loop over the stages, which passes over those of another name.
unfoldable pub add_stages : List Stage → Runner → Runner
unfolding add_checks
add_stages [] r = r
add_stages (s ∷ stages) r =
    if s.name == r.stage then add_stages stages (add_checks s.checks r) else add_stages stages r

abbrev pub pre_steps : String → List String
pre_steps stage = if stage == context_stage_init then "init_start" ∷ [] else []

abbrev pub post_steps : String → List String
post_steps stage =
    if stage == context_stage_init
    then "init_ok" ∷ []
    else (if stage == context_stage_start
        then "pod_start" ∷ []
        else (if stage == context_stage_stop then "pod_stop" ∷ [] else []))

-- The runner before the loop over the stages.
unfoldable pub initial_runner : Registry → String → Runner
unfolding get
initial_runner registry stage = record {
  stage = stage;
  registry = registry;
  pre = get (pre_steps stage) registry;
  plan = [];
  post = [];
  check_types = [];
  required_failures = false;
}

-- `NewRunner`
unfoldable pub new_runner : List Stage → Registry → String → Runner
unfolding initial_runner add_stages get
new_runner stages registry stage = record (add_stages stages (initial_runner registry stage)) {
  post = get (post_steps stage) registry;
}

abbrev pub write_to : Write → Report → Report
write_to (add_check c) report = record report { checks = report.checks ++ c ∷ [] }
write_to (set_state t) report = record report { state = t }

unfoldable pub write_all : List Write → Report → Report
write_all [] report = report
write_all (w ∷ ws) report = write_all ws (write_to w report)

abbrev pub empty_report : Report
empty_report = record { state = unspecified; checks = [] }

-- The report, and the errors that end the run.
pub record Progress : Type 0 where
  pub report : Report
  pub errors : List String

-- The loops over the steps before and after, which stop at the first error.
unfoldable pub run_in_order : List Provider → Report → Progress
unfolding write_all
run_in_order [] report = record { report = report; errors = [] }
run_in_order (p ∷ ps) report =
    let rest = run_in_order ps (write_all p.writes report) in
    elim p.error [
      | none ↦ rest
      | some e ↦ record { report = write_all p.writes report; errors = e ∷ [] }
    ]

abbrev back {ℓ} : {A : Type ℓ} → List A → Option (A × List (List A)) → Option (A × List (List A))
back xs none = none
back xs (some (x, xss)) = some (x, xs ∷ xss)

-- The next write of a goroutine, if it has one left.
unfoldable pub take_from {ℓ} : {A : Type ℓ} → ℕ → List (List A) → Option (A × List (List A))
take_from i [] = none
take_from zero ([] ∷ xss) = none
take_from zero ((x ∷ xs) ∷ xss) = some (x, xs ∷ xss)
take_from (suc i) (xs ∷ xss) = back xs (take_from i xss)

unfoldable pub interleave {ℓ} : {A : Type ℓ} → List ℕ → List (List A) → List A
unfolding take_from concat
interleave [] xss = concat xss
interleave (i ∷ schedule) xss = elim (take_from i xss) [
  | none ↦ interleave schedule xss
  | some (x, rest) ↦ x ∷ interleave schedule rest
]

abbrev pub provider_writes : Provider → List Write
provider_writes p = p.writes

-- `errors.Join` of the errors of the plan.
unfoldable pub joined_errors : List Provider → List String
joined_errors [] = []
joined_errors (p ∷ ps) = elim p.error [ none ↦ joined_errors ps | some e ↦ e ∷ joined_errors ps ]

unfoldable pub run_plan : List ℕ → List Provider → Report → Progress
unfolding write_all interleave joined_errors
run_plan schedule plan report = record {
  report = write_all (interleave schedule (map provider_writes plan)) report;
  errors = joined_errors plan;
}

abbrev pub first_writes : List Provider → List Write
first_writes [] = []
first_writes (p ∷ ps) = p.writes

-- `processFailures`
unfoldable pub process_failures : Runner → Report → Report
unfolding get write_all
process_failures r report =
    if r.stage == context_stage_init && any (λ c. not c.passing) report.checks
    then write_all (first_writes (get ("init_failed" ∷ []) r.registry)) report
    else report

abbrev is_required : Option String → Bool
is_required none = false
is_required (some t) = t == check_type_required

-- A check that is not passing and whose name is required.
abbrev pub fails_required : Runner → StatusCheck → Bool
fails_required r c = not c.passing && is_required (lookup c.name r.check_types)

-- What `Run` leaves and returns.
pub record Ran : Type 0 where
  pub runner : Runner
  pub report : Report
  pub errors : List String

unfoldable pub finish : Runner → Report → Ran
unfolding process_failures lookup
finish r report =
    let final = process_failures r report in
    record {
      runner = record r {
        required_failures = r.required_failures || any (fails_required r) final.checks;
      };
      report = final;
      errors = [];
    }

abbrev pub unless_failed : Runner → Progress → (Report → Ran) → Ran
unless_failed r p next = elim p.errors [
  | [] ↦ next p.report
  | e ∷ es ↦ record { runner = r; report = p.report; errors = e ∷ es }
]

-- The steps after the plan, and the plan with them.
unfoldable pub run_post : Runner → Report → Ran
unfolding run_in_order finish
run_post r planned = unless_failed r (run_in_order r.post planned) (finish r)

unfoldable pub run_planned : List ℕ → Runner → Report → Ran
unfolding run_plan run_post
run_planned schedule r started = unless_failed r (run_plan schedule r.plan started) (run_post r)

-- `Run`
unfoldable pub run : List ℕ → Runner → Ran
unfolding run_in_order run_planned
run schedule r = unless_failed r (run_in_order r.pre empty_report) (run_planned schedule r)

-- `ShouldFail`
abbrev pub should_fail : Runner → Bool
should_fail r = r.required_failures
