-- ===== src/Tls/Stuck.antt =====
-- A provider that fails.
use cloudzero_agent.Base.{
  ℕ, Bool, true, false, none, some, if◌then◌else◌, err, Bool-cases, inl, inr, ◌≡◌, refl, ap, ◌∙◌,
  arith,
}
use cloudzero_agent.Tls.Defs.{Reconciler, Provided, need_reload, reload_if, certificates}

module _ {ℓ κ} {C : Type ℓ} {R : Type κ} where
  need_reload_keeps :
      (wants : Bool) (now : ℕ) (r : Reconciler C R)
      → ((need_reload wants now r).1.cert ≡ r.cert) × ((need_reload wants now r).1.pool ≡ r.pool)
  unfolding need_reload
  need_reload_keeps wants now r = elim (Bool-cases r.started) [
    | inl f ↦ rw f (refl, refl)
    | inr f ↦ rw f (refl, refl)
  ]

module _ {ℓ κ ι} {C : Type ℓ} {R : Type κ} {E : Type ι} where
  reload_if_failed :
      (e : E) (p : Bool × Reconciler C R)
      → p.0 ≡ true
      → reload_if (err e) p ≡ (some e, record p.1 { reloading = true })
  reload_if_failed e (false, r) n = absurd (ground arith)
  reload_if_failed e (true, r) n = refl

  -- A load that the provider fails returns its error, with the certificate and the pool of before, and
  -- the call after it waits for ever, whatever the provider would give.
  pub certificates_after_error :
      (wants wants' : Bool) (now now' : ℕ) (e : E) (provided' : Provided C R E) (r : Reconciler C R)
      → r.reloading ≡ false
      → (need_reload wants now r).0 ≡ true
      → (r' : Reconciler C R) × (certificates wants now (err e) r ≡ some (some e, r'))
        × (r'.cert ≡ r.cert)
        × (r'.pool ≡ r.pool)
        × (certificates wants' now' provided' r' ≡ none)
  unfolding certificates
  certificates_after_error wants wants' now now' e provided' r q n = (
    record (need_reload wants now r).1 { reloading = true },
    ap (λ b. if b then none else some (reload_if (err e) (need_reload wants now r))) q
        ∙ ap some (reload_if_failed e (need_reload wants now r) n),
    (need_reload_keeps wants now r).0,
    (need_reload_keeps wants now r).1,
    refl,
  )
