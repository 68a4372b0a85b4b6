-- ===== src/Tls/Fresh.antt =====
-- What the options leave as it is in a new reconciler.
use cloudzero_agent.Base.{false, none, some, List, [], ◌∷◌, of_some, ◌≡◌, refl, arith}
use cloudzero_agent.Tls.Defs.{
  Setting, Reconciler, new_reconciler, apply, apply_all, tls_config, with_verify_connection,
  with_provider, with_roots_limit, with_reload_func, with_sighup_reload, with_duration_reload,
  with_on_reload,
}

module _ {ℓ κ} {C : Type ℓ} {R : Type κ} where
  -- Nothing has been loaded yet.
  abbrev pub IsFresh : Reconciler C R → Type (ℓ ⊔ κ)
  IsFresh r = (r.reloading ≡ false) × (r.roots ≡ []) × (r.pool ≡ none) × (r.cert ≡ none)

  apply-IsFresh : (s : Setting) (r : Reconciler C R) → IsFresh r → IsFresh (apply s r)
  unfolding apply
  apply-IsFresh with_verify_connection r w = w
  apply-IsFresh with_provider r w = w
  apply-IsFresh (with_roots_limit n) r w = w
  apply-IsFresh with_reload_func r w = w
  apply-IsFresh (with_sighup_reload signals) r w = w
  apply-IsFresh (with_duration_reload duration now) r w = w
  apply-IsFresh with_on_reload r w = w

  apply_all-IsFresh :
      (settings : List Setting) (r : Reconciler C R) → IsFresh r → IsFresh (apply_all settings r)
  unfolding apply_all
  apply_all-IsFresh [] r w = w
  apply_all-IsFresh (s ∷ settings) r w =
      apply_all-IsFresh settings (apply s r) (apply-IsFresh s r w)

  pub tls_config-IsFresh :
      (settings : List Setting) (r : Reconciler C R) → tls_config settings ≡ some r → IsFresh r
  unfolding tls_config
  tls_config-IsFresh [] r e = absurd (ground arith)
  tls_config-IsFresh (s ∷ settings) r e =
      of_some IsFresh (apply_all (s ∷ settings) new_reconciler) r e
        (apply_all-IsFresh (s ∷ settings) new_reconciler (refl, refl, refl, refl))
