-- ===== src/Diagnostics/Failures.antt =====
-- When a run of the diagnostics is a failure.
use cloudzero_agent.Base.{
  ℕ, zero, suc, String, Bool, true, false, some, List, [], ◌∷◌, ◌++◌, map, not, any, all, ◌||◌,
  any-append, is_some, Option-cases, of_some, inl, inr, ◌≡◌, ◌≢◌, refl, arith,
}
use cloudzero_agent.Shipper.Chunk.{concat}
use cloudzero_agent.Diagnostics.Catalog.{StatusCheck, Write, add_check, set_state, Provider, get}
use cloudzero_agent.Diagnostics.Runner.{
  Report, empty_report, unless_failed, Runner, write_to, write_all, run_in_order, take_from,
  interleave, provider_writes, joined_errors, run_plan, first_writes, process_failures,
  fails_required, Ran, finish, run_post, run_planned, run, should_fail,
}

module _ {ℓ} {A : Type ℓ} (f : A → Bool) where
  any-take_from :
      (i : ℕ) (xss rest : List (List A)) (x : A)
      → take_from i xss ≡ some (x, rest)
      → any f (concat xss) ≡ (f x || any f (concat rest))
  unfolding take_from concat
  any-take_from i [] rest x e = absurd (ground arith)
  any-take_from zero ([] ∷ xss) rest x e = absurd (ground arith)
  any-take_from zero ((y ∷ ys) ∷ xss) rest x e =
      of_some (λ q. (f y || any f (ys ++ concat xss)) ≡ (f q.0 || any f (concat q.1))) (y, ys ∷ xss)
        (x, rest) e refl
  any-take_from (suc i) (ys ∷ xss) rest x e = elim (Option-cases (take_from i xss)) [
    | inl n ↦ absurd (ground (arith, rw n at e))
    | inr ((y, left), n) ↦
        of_some (λ q. any f (ys ++ concat xss) ≡ (f q.0 || any f (concat q.1))) (y, ys ∷ left)
          (x, rest) (rw n at e)
          (ground (
            arith,
            any-append f ys (concat xss),
            any-append f ys (concat left),
            any-take_from i xss left y n,
          ))
  ]

  -- Whatever the schedule, the same writes reach the report.
  any-interleave :
      (schedule : List ℕ) (xss : List (List A))
      → any f (interleave schedule xss) ≡ any f (concat xss)
  unfolding interleave
  any-interleave [] xss = refl
  any-interleave (i ∷ schedule) xss = elim (Option-cases (take_from i xss)) [
    | inl n ↦ rw (n, interleave) (any-interleave schedule xss)
    | inr ((x, rest), n) ↦
        rw (n, interleave)
          (ground (arith, any-interleave schedule rest, any-take_from i xss rest x n))
  ]

-- A write of a check that a test finds.
abbrev pub writes_check : (StatusCheck → Bool) → Write → Bool
writes_check f (add_check c) = f c
writes_check f (set_state t) = false

any-write_all :
    (f : StatusCheck → Bool) (ws : List Write) (report : Report)
    → any f (write_all ws report).checks ≡ (any f report.checks || any (writes_check f) ws)
unfolding write_all
any-write_all f [] report = ground arith
any-write_all f (add_check c ∷ ws) report =
    ground (
      arith,
      any-write_all f ws (write_to (add_check c) report),
      any-append f report.checks (c ∷ []),
    )
any-write_all f (set_state t ∷ ws) report =
    ground (arith, any-write_all f ws (write_to (set_state t) report))

abbrev pub succeeds : Provider → Bool
succeeds p = not (is_some p.error)

write_all-append :
    (xs ys : List Write) (report : Report)
    → write_all (xs ++ ys) report ≡ write_all ys (write_all xs report)
unfolding write_all
write_all-append [] ys report = refl
write_all-append (x ∷ xs) ys report = write_all-append xs ys (write_to x report)

run_in_order-succeeds :
    (ps : List Provider) (report : Report)
    → all succeeds ps ≡ true
    → run_in_order ps report
      ≡ record { report = write_all (concat (map provider_writes ps)) report; errors = [] }
unfolding run_in_order write_all concat
run_in_order-succeeds [] report h = refl
run_in_order-succeeds (p ∷ ps) report h = elim (Option-cases p.error) [
  | inl e ↦
      rw (e, write_all-append p.writes (concat (map provider_writes ps)) report, run_in_order)
        (run_in_order-succeeds ps (write_all p.writes report) (ground arith))
  | inr (x, e) ↦ absurd (ground (arith, rw e at h))
]

joined_errors-succeeds : (ps : List Provider) → all succeeds ps ≡ true → joined_errors ps ≡ []
unfolding joined_errors
joined_errors-succeeds [] h = refl
joined_errors-succeeds (p ∷ ps) h = elim (Option-cases p.error) [
  | inl e ↦ rw e (joined_errors-succeeds ps (ground arith))
  | inr (x, e) ↦ absurd (ground (arith, rw e at h))
]

-- What the providers of a runner write.
abbrev pub all_writes : Runner → List Write
all_writes r =
    concat (map provider_writes r.pre)
    ++ concat (map provider_writes r.plan)
    ++ concat (map provider_writes r.post)

any-process_failures :
    (f : StatusCheck → Bool) (r : Runner) (report : Report)
    → any (writes_check f) (first_writes (get ("init_failed" ∷ []) r.registry)) ≡ false
    → any f (process_failures r report).checks ≡ any f report.checks
unfolding process_failures
any-process_failures f r report h =
    ground (arith, any-write_all f (first_writes (get ("init_failed" ∷ []) r.registry)) report)

should_fail-finish :
    (r : Runner) (report : Report)
    → any (writes_check (fails_required r)) (first_writes (get ("init_failed" ∷ []) r.registry))
      ≡ false
    → should_fail (finish r report).runner
      ≡ (r.required_failures || any (fails_required r) report.checks)
unfolding finish
should_fail-finish r report h = rw (any-process_failures (fails_required r) r report h) refl

any-written :
    (f : StatusCheck → Bool) (schedule : List ℕ) (before after : List Write)
    (plan : List (List Write)) (report : Report)
    → any f
        (write_all after (write_all (interleave schedule plan) (write_all before report))).checks
      ≡ (any f report.checks || any (writes_check f) (before ++ concat plan ++ after))
any-written f schedule before after plan report =
    rw
      (
        any-write_all f after (write_all (interleave schedule plan) (write_all before report)),
        any-write_all f (interleave schedule plan) (write_all before report),
        any-write_all f before report,
        any-interleave (writes_check f) schedule plan,
        any-append (writes_check f) (before ++ concat plan) after,
        any-append (writes_check f) before (concat plan),
      )
      (ground arith)

-- When no provider returns an error and the provider of a failed start adds no such check, the flag is
-- set exactly if it was set before or a check was added that counts.
pub should_fail-run_from :
    (schedule : List ℕ) (r : Runner)
    → all succeeds r.pre ≡ true
    → all succeeds r.plan ≡ true
    → all succeeds r.post ≡ true
    → any (writes_check (fails_required r)) (first_writes (get ("init_failed" ∷ []) r.registry))
      ≡ false
    → should_fail (run schedule r).runner
      ≡ (r.required_failures || any (writes_check (fails_required r)) (all_writes r))
unfolding run run_planned run_post run_plan
should_fail-run_from schedule r pre plan post h =
    rw
      (
        run_in_order-succeeds r.pre _ pre,
        joined_errors-succeeds r.plan plan,
        run_in_order-succeeds r.post _ post,
        run,
        run_planned,
        run_post,
      )
      (rw
        (
          any-process_failures (fails_required r) r _ h,
          any-written (fails_required r) schedule (concat (map provider_writes r.pre))
              (concat (map provider_writes r.post)) (map provider_writes r.plan) empty_report,
        )
        refl)

unless_failed-keeps :
    (r : Runner) (report : Report) (errors : List String) (next : Report → Ran)
    → ((seen : Report)
        → (next seen).errors ≢ []
        → should_fail (next seen).runner ≡ r.required_failures)
    → (unless_failed r (record { report = report; errors = errors }) next).errors ≢ []
    → should_fail (unless_failed r (record { report = report; errors = errors }) next).runner
      ≡ r.required_failures
unless_failed-keeps r report [] next keep h = keep report h
unless_failed-keeps r report (e ∷ es) next keep h = refl

finish-keeps :
    (r : Runner) (seen : Report)
    → (finish r seen).errors ≢ []
    → should_fail (finish r seen).runner ≡ r.required_failures
unfolding finish
finish-keeps r seen h = absurd (h refl)

-- A run that returns an error is no failure: `ShouldFail` keeps the value from before, whatever checks
-- did not pass.
pub should_fail-errors :
    (schedule : List ℕ) (r : Runner)
    → (run schedule r).errors ≢ []
    → should_fail (run schedule r).runner ≡ r.required_failures
unfolding run run_planned run_post
should_fail-errors schedule r h =
    unless_failed-keeps r (run_in_order r.pre empty_report).report
      (run_in_order r.pre empty_report).errors (run_planned schedule r)
      (λ started.
        unless_failed-keeps r (run_plan schedule r.plan started).report
          (run_plan schedule r.plan started).errors (run_post r)
          (λ planned.
            unless_failed-keeps r (run_in_order r.post planned).report
              (run_in_order r.post planned).errors (finish r) (finish-keeps r)))
      h
