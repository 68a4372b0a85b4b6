-- ===== src/Diagnostics/Required.antt =====
-- When the first run of a runner is a failure, in terms of the settings. Nothing clears the flag before
-- a second run of the same runner.
use cloudzero_agent.Base.{
  ℕ, String, Bool, true, false, Option, none, some, List, [], ◌∷◌, any, all, ◌==◌, Bool-cases, inl,
  inr, lookup, insert, lookup-insert, or_else, if◌then◌else◌, ◌≡◌, refl, ◌∙◌, arith,
}
use cloudzero_agent.Diagnostics.Config.{CheckConfig, Stage}
use cloudzero_agent.Diagnostics.Catalog.{StatusCheck, Write, add_check, set_state, Registry, get}
use cloudzero_agent.Diagnostics.Runner.{
  Runner, add_types, add_checks, add_stages, initial_runner, new_runner, first_writes,
  fails_required, run, should_fail,
}
use cloudzero_agent.Diagnostics.Failures.{writes_check, succeeds, all_writes, should_fail-run_from}

-- The last setting of a check by its name, in the settings of one stage and in all those of a stage.
pub last_type : String → List CheckConfig → Option String
last_type name [] = none
last_type name (c ∷ cs) =
    or_else (last_type name cs) (if c.name == name then some c.check_type else none)

pub setting : String → String → List Stage → Option String
setting stage name [] = none
setting stage name (s ∷ stages) =
    or_else (setting stage name stages) (if s.name == stage then last_type name s.checks else none)

-- A check that did not pass although the settings of the stage require it.
pub breaks : String → List Stage → StatusCheck → Bool
breaks stage stages c = elim c.passing [
  | true ↦ false
  | false ↦ elim (setting stage c.name stages) [ none ↦ false | some t ↦ t == "required" ]
]

or_else-none : (o : Option String) → or_else o none ≡ o
or_else-none none = refl
or_else-none (some t) = refl

or_else_assoc : (o p q : Option String) → or_else (or_else o p) q ≡ or_else o (or_else p q)
or_else_assoc none p q = refl
or_else_assoc (some t) p q = refl

lookup-add_types :
    (name : String) (cs : List CheckConfig) (types : List (String × String))
    → lookup name (add_types cs types) ≡ or_else (last_type name cs) (lookup name types)
unfolding add_types last_type
lookup-add_types name [] types = refl
lookup-add_types name (c ∷ cs) types = elim (Bool-cases (c.name == name)) [
  | inl e ↦
      lookup-add_types name cs (insert c.name c.check_type types)
      ∙ rw
          (
            lookup-insert c.name name c.check_type types,
            e,
            or_else_assoc (last_type name cs) _ (lookup name types),
          )
          refl
  | inr e ↦
      lookup-add_types name cs (insert c.name c.check_type types)
      ∙ rw (lookup-insert c.name name c.check_type types, e, or_else-none (last_type name cs)) refl
]

lookup-add_stages :
    (name : String) (stages : List Stage) (r : Runner)
    → lookup name (add_stages stages r).check_types
      ≡ or_else (setting r.stage name stages) (lookup name r.check_types)
unfolding add_stages add_checks setting
lookup-add_stages name [] r = refl
lookup-add_stages name (s ∷ stages) r = elim (Bool-cases (s.name == r.stage)) [
  | inl e ↦
      rw (e, add_stages)
        (lookup-add_stages name stages (add_checks s.checks r)
          ∙ rw
              (
                lookup-add_types name s.checks r.check_types,
                or_else_assoc (setting r.stage name stages) (last_type name s.checks)
                    (lookup name r.check_types),
              )
              refl)
  | inr e ↦
      rw (e, or_else-none (setting r.stage name stages), add_stages)
        (lookup-add_stages name stages r)
]

fails_required-new_runner :
    (stages : List Stage) (registry : Registry) (stage : String) (c : StatusCheck)
    → fails_required (new_runner stages registry stage) c ≡ breaks stage stages c
unfolding new_runner initial_runner breaks lookup
fails_required-new_runner stages registry stage c =
    rw
      (
        lookup-add_stages c.name stages (initial_runner registry stage),
        or_else-none (setting stage c.name stages),
      )
      (ground arith)

any_write-breaks :
    (stages : List Stage) (registry : Registry) (stage : String) (ws : List Write)
    → any (writes_check (fails_required (new_runner stages registry stage))) ws
      ≡ any (writes_check (breaks stage stages)) ws
any_write-breaks stages registry stage [] = refl
any_write-breaks stages registry stage (add_check c ∷ ws) =
    rw
      (fails_required-new_runner stages registry stage c, any_write-breaks stages registry stage ws)
      refl
any_write-breaks stages registry stage (set_state t ∷ ws) =
    any_write-breaks stages registry stage ws

new_runner-registry :
    (stages : List Stage) (r : Runner) → (add_stages stages r).registry ≡ r.registry
unfolding add_stages add_checks
new_runner-registry [] r = refl
new_runner-registry (s ∷ stages) r =
    ground (arith, new_runner-registry stages r, new_runner-registry stages (add_checks s.checks r))

new_runner-required_failures :
    (stages : List Stage) (r : Runner)
    → (add_stages stages r).required_failures ≡ r.required_failures
unfolding add_stages add_checks
new_runner-required_failures [] r = refl
new_runner-required_failures (s ∷ stages) r = ground (
  arith,
  new_runner-required_failures stages r,
  new_runner-required_failures stages (add_checks s.checks r),
)

-- When no provider of a new runner returns an error and the provider of a failed start adds no check of
-- the following kind, `ShouldFail` after the run is true exactly if a provider added a check that did not
-- pass and whose last setting, among the stages of exactly this name, is "required", whatever the order
-- in which the goroutines of the plan write.
pub should_fail-run :
    (schedule : List ℕ) (stages : List Stage) (registry : Registry) (stage : String)
    → all succeeds (new_runner stages registry stage).pre ≡ true
    → all succeeds (new_runner stages registry stage).plan ≡ true
    → all succeeds (new_runner stages registry stage).post ≡ true
    → any (writes_check (breaks stage stages)) (first_writes (get ("init_failed" ∷ []) registry))
      ≡ false
    → should_fail (run schedule (new_runner stages registry stage)).runner
      ≡ any (writes_check (breaks stage stages)) (all_writes (new_runner stages registry stage))
unfolding new_runner initial_runner
should_fail-run schedule stages registry stage pre plan post h =
    let r = new_runner stages registry stage in
    should_fail-run_from schedule r pre plan post (
      rw (new_runner-registry stages (initial_runner registry stage)) (
        any_write-breaks stages registry stage (first_writes (get ("init_failed" ∷ []) registry))
        ∙ h))
    ∙ rw (new_runner-required_failures stages (initial_runner registry stage))
        (any_write-breaks stages registry stage (all_writes r))
