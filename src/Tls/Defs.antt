-- ===== src/Tls/Defs.antt =====
-- The reconciler as one caller after the other sees it. Certificates, roots and errors are types that
-- the packages crypto/tls and crypto/x509 give.
use cloudzero_agent.Base.{
  ℕ, suc, ◌+◌, Bool, true, false, Option, none, some, List, [], ◌∷◌, ltb, length, if◌then◌else◌,
  Result, ok, err,
}

-- A reload that never happens, and one that the caller of `WithReloadFunc` decides; the signals that
-- wait in a channel, `true` for SIGHUP; an interval with the time of the next reload.
pub data Reload : Type 0 where
  never : Reload
  on_demand : Reload
  on_signal : List Bool → Reload
  on_interval : (duration next_reload : ℕ) → Reload

-- One call of the reload function, at a time; `wants` is what a custom function answers.
unfoldable pub ask_reload : Bool → ℕ → Reload → Bool × Reload
ask_reload wants now never = (false, never)
ask_reload wants now on_demand = (wants, on_demand)
ask_reload wants now (on_signal []) = (false, on_signal [])
ask_reload wants now (on_signal (is_sighup ∷ signals)) = (is_sighup, on_signal signals)
ask_reload wants now (on_interval duration next_reload) =
    if ltb next_reload now
    then (true, on_interval duration (now + duration))
    else (false, on_interval duration next_reload)

-- The options; `WithDurationReload` reads the clock when the option is made.
pub data Setting : Type 0 where
  with_verify_connection : Setting
  with_provider : Setting
  with_roots_limit : ℕ → Setting
  with_reload_func : Setting
  with_sighup_reload : List Bool → Setting
  with_duration_reload : (duration now : ℕ) → Setting
  with_on_reload : Setting

module _ {ℓ} {R : Type ℓ} where
  -- `ll.Remove(ll.Back())`
  abbrev pub remove_back : List R → List R
  remove_back [] = []
  remove_back (x ∷ []) = []
  remove_back (x ∷ y ∷ xs) = x ∷ remove_back (y ∷ xs)

  -- The new roots go to the front, one by one, and the oldest is removed when there are too many.
  unfoldable pub push_roots : ℕ → List R → List R → List R
  push_roots limit roots [] = roots
  push_roots limit roots (ca ∷ cas) =
      push_roots limit
        (if ltb limit (length (ca ∷ roots)) then remove_back (ca ∷ roots) else ca ∷ roots) cas

-- The fields of the reconciler and those of its `config` that it sets. `roots` is the list `ll`, front
-- first; `reloads` counts the calls of `onReload`.
pub record Reconciler {ℓ κ} (C : Type ℓ) (R : Type κ) : Type (ℓ ⊔ κ) where
  pub reloading : Bool
  pub started : Bool
  pub roots_limit : ℕ
  pub roots : List R
  pub pool : Option (List R)
  pub cert : Option C
  pub reload : Reload
  pub has_on_reload : Bool
  pub reloads : ℕ
  pub verifies_connection : Bool
  pub gets_certificate : Bool

-- What the provider answers: a certificate, which may be nil, and roots.
abbrev pub Provided {ℓ κ ι} : Type ℓ → Type κ → Type ι → Type (ℓ ⊔ κ ⊔ ι)
Provided C R E = Result E (Option C × List R)

module _ {ℓ κ} {C : Type ℓ} {R : Type κ} where
  abbrev pub new_reconciler : Reconciler C R
  new_reconciler = record {
    reloading = false;
    started = false;
    roots_limit = 2;
    roots = [];
    pool = none;
    cert = none;
    reload = never;
    has_on_reload = false;
    reloads = 0;
    verifies_connection = false;
    gets_certificate = false;
  }

  unfoldable pub apply : Setting → Reconciler C R → Reconciler C R
  apply with_verify_connection r = record r { verifies_connection = true }
  apply with_provider r = record r { gets_certificate = true }
  apply (with_roots_limit n) r = record r { roots_limit = n }
  apply with_reload_func r = record r { reload = on_demand }
  apply (with_sighup_reload signals) r = record r { reload = on_signal signals }
  apply (with_duration_reload duration now) r = record r {
    reload = on_interval duration (now + duration);
  }
  apply with_on_reload r = record r { has_on_reload = true }

  -- The options of a reconciler in order.
  unfoldable pub apply_all : List Setting → Reconciler C R → Reconciler C R
  apply_all [] r = r
  apply_all (s ∷ settings) r = apply_all settings (apply s r)

  -- `TLSConfig`; `none` is the empty configuration.
  unfoldable pub tls_config : List Setting → Option (Reconciler C R)
  unfolding apply_all
  tls_config [] = none
  tls_config (s ∷ settings) = some (apply_all (s ∷ settings) new_reconciler)

  -- `ok || r.reload()`: on the first call the reload function is not asked.
  unfoldable pub need_reload : Bool → ℕ → Reconciler C R → Bool × Reconciler C R
  unfolding ask_reload
  need_reload wants now r =
      let asked = ask_reload wants now r.reload in
      if r.started
      then (asked.0, record r { reload = asked.1 })
      else (true, record r { started = true })

  abbrev pub update_pool : List R → Reconciler C R → Reconciler C R
  update_pool [] r = r
  update_pool (ca ∷ cas) r = record r {
    roots = push_roots r.roots_limit r.roots (ca ∷ cas);
    pool = some (push_roots r.roots_limit r.roots (ca ∷ cas));
  }

  -- The function that runs under `flight.Do`, after `reloading` is set.
  abbrev pub reload_from {ι} :
      {E : Type ι} → Provided C R E → Reconciler C R → Option E × Reconciler C R
  reload_from (err e) r = (some e, r)
  reload_from (ok (cert, roots)) r = (
    none,
    record (update_pool roots r) {
      cert = cert;
      reloads = if r.has_on_reload then suc r.reloads else r.reloads;
      reloading = false;
    },
  )

  abbrev pub reload_if {ι} :
      {E : Type ι} → Provided C R E → Bool × Reconciler C R → Option E × Reconciler C R
  reload_if provided (true, r) = reload_from provided (record r { reloading = true })
  reload_if provided (false, r) = (none, r)

  -- `certificates`: the error and the new state, which holds the certificate and the pool that are
  -- returned; `none` where the caller waits for a reload to end.
  unfoldable pub certificates {ι} :
      {E : Type ι} → Bool → ℕ → Provided C R E → Reconciler C R → Option (Option E × Reconciler C R)
  unfolding need_reload
  certificates wants now provided r =
      if r.reloading then none else some (reload_if provided (need_reload wants now r))
