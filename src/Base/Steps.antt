-- ===== src/Base/Steps.antt =====
-- Histories of a machine whose steps may be impossible, and the induction over them.
use mathlib.Core.Path.{◌≡◌, refl, ap, subst}
use mathlib.Core.Bool.{Bool, true}
use mathlib.Core.Option.{Option, none, some}
use mathlib.Core.List.{List, [], ◌∷◌, ◌++◌}
use mathlib.Core.Logic.{inl, inr}
use native.Mathlib.Omega.{arith}
use cloudzero_agent.Base.Tests.{Option-cases}
use cloudzero_agent.Base.Lists.{all}

abbrev pub then_some {ℓ} : {S : Type ℓ} → (S → Option S) → Option S → Option S
then_some k none = none
then_some k (some s) = k s

-- The state after some events, or `none` if one of them was impossible.
unfoldable pub steps {ℓ κ} : {S : Type ℓ} {E : Type κ} → (E → S → Option S) → List E → S → Option S
steps step [] s = some s
steps step (e ∷ events) s = then_some (steps step events) (step e s)

abbrev some_or {ℓ} : {S : Type ℓ} → S → Option S → S
some_or s none = s
some_or s (some t) = t

-- What holds of a state holds of the equal state in another `some`.
pub of_some {ℓ κ} : {S : Type ℓ} (P : S → Type κ) (s t : S) → some s ≡ some t → P s → P t
of_some P s t e p = subst P (ap (some_or s) e) p

-- What the allowed events keep holds after every history of them.
pub steps_inv {ℓ κ ι} :
    {S : Type ℓ} {E : Type κ} (step : E → S → Option S) (allowed : E → Bool) (P : S → Type ι)
    → ((e : E) (s t : S) → allowed e ≡ true → P s → step e s ≡ some t → P t)
    → (events : List E) (s t : S) → all allowed events ≡ true
    → P s
    → steps step events s ≡ some t
    → P t
unfolding steps
steps_inv step allowed P keep [] s t h p e = of_some P s t e p
steps_inv step allowed P keep (x ∷ events) s t h p e = elim (Option-cases (step x s)) [
  | inl f ↦ absurd (ground arith)
  | inr (r, f) ↦
      steps_inv step allowed P keep events r t (ground arith) (keep x s r (ground arith) p f)
        (rw f at e)
]

pub steps-append {ℓ κ} :
    {S : Type ℓ} {E : Type κ} (step : E → S → Option S) (xs ys : List E) (s t : S)
    → steps step xs s ≡ some t
    → steps step (xs ++ ys) s ≡ steps step ys t
unfolding steps
steps-append step [] ys s t e = of_some (λ r. steps step ys s ≡ steps step ys r) s t e refl
steps-append step (x ∷ xs) ys s t e = elim (Option-cases (step x s)) [
  | inl f ↦ absurd (ground (arith, rw f at e))
  | inr (r, f) ↦ rw f (steps-append step xs ys r t (rw f at e))
]
