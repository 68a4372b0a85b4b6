-- ===== src/Diagnostics/Stages.antt =====
-- Which checks a stage runs, and the providers of the states in the catalog.
use cloudzero_agent.Base.{
  String, true, Option, none, some, List, [], ◌∷◌, map, not, all, All, false, ◌==◌, Result, ok, err,
  Result-cases, of_some, Bool-cases, inl, inr, lookup, ◌≡◌, refl, ap, arith,
}
use mathlib.Core.Path.{subst}
use cloudzero_agent.Diagnostics.Config.{
  CheckConfig, Stage, context_stage_init, normal, is_valid_stage, validate_check, validate_checks,
  validate_stage, validate,
}
use cloudzero_agent.Diagnostics.Catalog.{
  init_ok, init_failed, Registry, stage_provider, get, has, add, add_all, additions, Checks,
  create_registry,
}
use cloudzero_agent.Diagnostics.Runner.{Runner, initial_runner, add_stages, new_runner}

abbrev pub stage_name : Stage → String
stage_name s = s.name

abbrev list_or : List Stage → Result String (List Stage) → List Stage
list_or s (ok t) = t
list_or s (err e) = s

validate-names :
    (to_lower : String → String) (stages out : List Stage)
    → validate to_lower stages ≡ ok out
    → map stage_name out ≡ map stage_name stages
unfolding validate
validate-names to_lower [] out e = subst (λ o. map stage_name o ≡ []) (ap (list_or []) e) refl
validate-names to_lower (s ∷ stages) out e = elim (Result-cases (validate_stage to_lower s)) [
  | inr (x, f) ↦ absurd (ground (arith, rw f at e))
  | inl (copied, f) ↦ elim (Result-cases (validate to_lower stages)) [
    | inr (x, g) ↦ absurd (ground (arith, rw g at (rw f at e)))
    | inl (rest, g) ↦
        subst (λ o. map stage_name o ≡ s.name ∷ map stage_name stages)
          (ap (list_or []) (rw g at (rw f at e)))
          (ap (◌∷◌ s.name) (validate-names to_lower stages rest g))
  ]
]

add_stages_other :
    (stages : List Stage) (r : Runner)
    → all (λ n. not (n == r.stage)) (map stage_name stages) ≡ true
    → add_stages stages r ≡ r
unfolding add_stages
add_stages_other [] r h = refl
add_stages_other (s ∷ stages) r h = elim (Bool-cases (s.name == r.stage)) [
  | inl e ↦ absurd (ground (arith, rw e at h))
  | inr e ↦ rw (e, add_stages) (add_stages_other stages r (ground (arith, rw e at h)))
]

-- A check that `Validate` passes.
abbrev pub CheckIsValid : (String → String) → CheckConfig → Type 0
CheckIsValid to_lower c = (d : CheckConfig) × (validate_check to_lower c ≡ ok d)

validate_checks-valid :
    (to_lower : String → String) (cs : List CheckConfig)
    → All (CheckIsValid to_lower) cs
    → (out : List CheckConfig) × (validate_checks to_lower cs ≡ ok out)
unfolding validate_checks
validate_checks-valid to_lower [] h = ([], refl)
validate_checks-valid to_lower (c ∷ cs) ((d, e), h) =
    let (out, f) = validate_checks-valid to_lower cs h in (d ∷ out, rw (e, f) refl)

-- A stage whose name is that of the first stage up to case and spaces, but not exactly, and whose
-- checks are valid.
abbrev pub Misspells : (String → String) → Stage → Type 0
Misspells to_lower s =
    (normal to_lower s.name ≡ context_stage_init)
    × ((s.name == context_stage_init) ≡ false)
    × All (CheckIsValid to_lower) s.checks

validate-misspelled :
    (to_lower : String → String) (stages : List Stage)
    → normal to_lower context_stage_init ≡ context_stage_init
    → All (Misspells to_lower) stages
    → (out : List Stage) × (validate to_lower stages ≡ ok out)
unfolding validate validate_stage is_valid_stage
validate-misspelled to_lower [] n h = ([], refl)
validate-misspelled to_lower (s ∷ stages) n ((name, other, checks), h) =
    let (out, e) = validate-misspelled to_lower stages n h in
    let (cs, f) = validate_checks-valid to_lower s.checks checks in
    (record s { checks = cs } ∷ out, rw (name, n, f, e) refl)

misspelled-other :
    (to_lower : String → String) (stages : List Stage)
    → All (Misspells to_lower) stages
    → all (λ n. not (n == context_stage_init)) (map stage_name stages) ≡ true
misspelled-other to_lower [] h = refl
misspelled-other to_lower (s ∷ stages) ((name, other, checks), h) =
    rw other (misspelled-other to_lower stages h)

-- Stages whose names are that of the first stage but for case and surrounding spaces, and never
-- exactly, pass validation if their checks do, when lower case keeps the name of that stage. But none of
-- their checks is in the plan of the runner for that stage.
pub new_runner-validated :
    (to_lower : String → String) (stages : List Stage) (registry : Registry)
    → normal to_lower context_stage_init ≡ context_stage_init
    → All (Misspells to_lower) stages
    → (out : List Stage) × (validate to_lower stages ≡ ok out)
      × ((new_runner out registry context_stage_init).plan ≡ [])
unfolding new_runner initial_runner
new_runner-validated to_lower stages registry n h =
    let (out, e) = validate-misspelled to_lower stages n h in
    let same : all (λ n. not (n == context_stage_init)) (map stage_name out) ≡ true =
      rw (validate-names to_lower stages out e) (misspelled-other to_lower stages h) in
    (out, e, rw (add_stages_other out (initial_runner registry context_stage_init) same) refl)

-- The providers of the states after the first stage.
abbrev pub InitProviders : Registry → Type 0
InitProviders registry =
    (get ("init_ok" ∷ []) registry ≡ stage_provider init_ok ∷ [])
    × (get ("init_failed" ∷ []) registry ≡ stage_provider init_failed ∷ [])

abbrev registry_or : Option Registry → Registry
registry_or none = []
registry_or (some registry) = registry

pub create_registry-InitProviders :
    (c : Checks) (registry : Registry) → create_registry c ≡ some registry → InitProviders registry
unfolding create_registry add_all additions add has get lookup
create_registry-InitProviders c registry e =
    of_some InitProviders (registry_or (create_registry c)) registry e (refl, refl)
