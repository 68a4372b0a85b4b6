-- ===== src/Diagnostics/Outcome.antt =====
-- The state that the report of the first stage ends with.
use cloudzero_agent.Base.{
  ℕ, String, Bool, some, List, [], ◌∷◌, not, any, ◌==◌, Bool-cases, inl, inr, ◌≡◌, refl, arith,
  if◌then◌else◌,
}
use cloudzero_agent.Diagnostics.Config.{Stage, context_stage_init}
use cloudzero_agent.Diagnostics.Catalog.{
  StatusType, init_ok, init_failed, StatusCheck, Registry, stage_provider, get, Checks,
  create_registry,
}
use cloudzero_agent.Diagnostics.Runner.{
  Report, empty_report, Runner, initial_runner, add_checks, add_stages, new_runner, write_all,
  run_in_order, run_plan, process_failures, Ran, unless_failed, finish, run_post, run_planned, run,
}
use cloudzero_agent.Diagnostics.Stages.{create_registry-InitProviders}

abbrev pub fails : StatusCheck → Bool
fails c = not c.passing

-- The state that the checks of a report call for.
abbrev pub init_state : Report → StatusType
init_state report = if any fails report.checks then init_failed else init_ok

unless_failed-holds {ℓ} :
    (P : Ran → Type ℓ) (r : Runner) (report : Report) (errors : List String) (next : Report → Ran)
    → ((seen : Report) → (next seen).errors ≡ [] → P (next seen))
    → (unless_failed r (record { report = report; errors = errors }) next).errors ≡ []
    → P (unless_failed r (record { report = report; errors = errors }) next)
unless_failed-holds P r report [] next holds h = holds report h
unless_failed-holds P r report (e ∷ es) next holds h = absurd (ground (arith, h))

process_failures-state :
    (r : Runner) (report : Report)
    → r.stage ≡ context_stage_init
    → get ("init_failed" ∷ []) r.registry ≡ stage_provider init_failed ∷ []
    → report.state ≡ init_ok
    → (process_failures r report).state ≡ init_state (process_failures r report)
unfolding write_all process_failures
process_failures-state r report s g h = elim (Bool-cases (any fails report.checks)) [
  | inl f ↦ rw (s, g, f, process_failures) (rw f refl)
  | inr f ↦ rw (s, f, process_failures) (rw f h)
]

-- The state of the report is the one that its checks call for.
abbrev pub EndsRight : Ran → Type 0
EndsRight ran = ran.report.state ≡ init_state ran.report

run_post-state :
    (r : Runner) (planned : Report)
    → r.stage ≡ context_stage_init
    → r.post ≡ stage_provider init_ok ∷ []
    → get ("init_failed" ∷ []) r.registry ≡ stage_provider init_failed ∷ []
    → EndsRight (run_post r planned)
unfolding run_post run_in_order write_all finish
run_post-state r planned s p g =
    rw (p, run_post) (process_failures-state r (record planned { state = init_ok }) s g refl)

run-state :
    (schedule : List ℕ) (r : Runner)
    → r.stage ≡ context_stage_init
    → r.post ≡ stage_provider init_ok ∷ []
    → get ("init_failed" ∷ []) r.registry ≡ stage_provider init_failed ∷ []
    → (run schedule r).errors ≡ []
    → EndsRight (run schedule r)
unfolding run run_planned
run-state schedule r s p g h =
    unless_failed-holds EndsRight r (run_in_order r.pre empty_report).report
      (run_in_order r.pre empty_report).errors (run_planned schedule r)
      (λ started.
        unless_failed-holds EndsRight r (run_plan schedule r.plan started).report
          (run_plan schedule r.plan started).errors (run_post r)
          (λ planned e. run_post-state r planned s p g))
      h

add_stages-keeps :
    (stages : List Stage) (r : Runner)
    → ((add_stages stages r).stage ≡ r.stage) × ((add_stages stages r).registry ≡ r.registry)
unfolding add_stages add_checks
add_stages-keeps [] r = (refl, refl)
add_stages-keeps (s ∷ stages) r = elim (Bool-cases (s.name == r.stage)) [
  | inl e ↦ rw e (add_stages-keeps stages (add_checks s.checks r))
  | inr e ↦ rw e (add_stages-keeps stages r)
]

-- A run of the first stage without an error, with the catalog of the program, ends with the state
-- INIT_FAILED if some check of the report does not pass, required or not, and with INIT_OK otherwise,
-- whatever the order in which the checks write.
pub run-init_state :
    (schedule : List ℕ) (c : Checks) (registry : Registry) (stages : List Stage)
    → create_registry c ≡ some registry
    → (run schedule (new_runner stages registry context_stage_init)).errors ≡ []
    → EndsRight (run schedule (new_runner stages registry context_stage_init))
unfolding new_runner initial_runner
run-init_state schedule c registry stages e h =
    run-state schedule (new_runner stages registry context_stage_init)
      (add_stages-keeps stages (initial_runner registry context_stage_init)).0
      (create_registry-InitProviders c registry e).0
      (rw (add_stages-keeps stages (initial_runner registry context_stage_init)).1
        (create_registry-InitProviders c registry e).1)
      h
