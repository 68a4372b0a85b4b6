-- ===== src/Tls/Laws.antt =====
-- The pool and the certificate after any number of calls.
use mathlib.Core.Option.{map}
use cloudzero_agent.Base.{
  ℕ, Bool, true, false, Option, none, some, List, [], ◌∷◌, take, if◌then◌else◌, ok, err, is_ok, all,
  steps, Bool-cases, inl, inr, ◌≡◌, refl, ap, sym, ◌∙◌, arith,
}
use cloudzero_agent.Tls.Roots.{
  take-nil, newest_first, push_roots-take, pool_of, pool_of-newest_first,
}
use cloudzero_agent.Tls.Defs.{
  Reload, Setting, Reconciler, Provided, ask_reload, tls_config, need_reload, reload_from,
  reload_if, certificates,
}
use cloudzero_agent.Tls.Fresh.{tls_config-IsFresh}

-- One call: what a custom reload function answers, the time, and what the provider would give.
pub record Call {ℓ κ ι} (C : Type ℓ) (R : Type κ) (E : Type ι) : Type (ℓ ⊔ κ ⊔ ι) where
  pub wants : Bool
  pub now : ℕ
  pub provided : Provided C R E

-- Whether the first call has been made, and the reload function.
pub record Source : Type 0 where
  pub started : Bool
  pub reload : Reload

-- The roots that have been given, newest first, and the last certificate.
pub record History {ℓ κ} (C : Type ℓ) (R : Type κ) : Type (ℓ ⊔ κ) where
  pub seen : List R
  pub last_cert : Option C

module _ {ℓ κ} {C : Type ℓ} {R : Type κ} where
  abbrev pub source_of : Reconciler C R → Source
  source_of r = record { started = r.started; reload = r.reload }

  -- The reconciler has the newest roots and the last certificate of a history.
  pub record IsCurrent (limit : ℕ) (h : History C R) (r : Reconciler C R) : Type (ℓ ⊔ κ) where
    pub limited : r.roots_limit ≡ limit
    pub roots : r.roots ≡ take limit h.seen
    pub pool : r.pool ≡ pool_of limit h.seen
    pub cert : r.cert ≡ h.last_cert

  abbrev pub no_history : History C R
  no_history = record { seen = []; last_cert = none }

module _ {ℓ κ ι} {C : Type ℓ} {R : Type κ} {E : Type ι} where
  unfoldable pub call_step : Call C R E → Reconciler C R → Option (Reconciler C R)
  call_step c r = map (λ p. p.1) (certificates c.wants c.now c.provided r)

  abbrev pub loaded : Provided C R E → History C R → History C R
  loaded (err e) h = h
  loaded (ok (cert, roots)) h = record { seen = newest_first roots h.seen; last_cert = cert }

  -- Whether a call loads: the first one does, a later one if its reload function says so.
  unfoldable pub next_source : Call C R E → Source → Bool × Source
  unfolding ask_reload
  next_source c s =
      let asked = ask_reload c.wants c.now s.reload in
      if s.started
      then (asked.0, record { started = true; reload = asked.1 })
      else (true, record { started = true; reload = s.reload })

  unfoldable pub history : List (Call C R E) → Source → History C R → History C R
  unfolding next_source
  history [] s h = h
  history (c ∷ calls) s h =
      history calls (next_source c s).1 (if (next_source c s).0 then loaded c.provided h else h)

  reload_from-IsCurrent :
      (limit : ℕ) (h : History C R) (provided : Provided C R E) (r : Reconciler C R)
      → is_ok provided ≡ true
      → IsCurrent limit h r
      → IsCurrent limit (loaded provided h) (reload_from provided r).1
  reload_from-IsCurrent limit h (err e) r o w = absurd (ground arith)
  reload_from-IsCurrent limit h (ok (cert, [])) r o w = record {
    limited = w.limited;
    roots = w.roots;
    pool = w.pool;
    cert = refl;
  }
  reload_from-IsCurrent limit h (ok (cert, ca ∷ cas)) r o w = record {
    limited = w.limited;
    roots = rw (w.limited, w.roots) (push_roots-take limit h.seen (ca ∷ cas));
    pool =
        rw (w.limited, w.roots)
          (ap some (push_roots-take limit h.seen (ca ∷ cas))
            ∙ pool_of-newest_first limit cas ca h.seen);
    cert = refl;
  }

  reload_from_idle :
      (provided : Provided C R E) (r : Reconciler C R)
      → is_ok provided ≡ true
      → (reload_from provided r).1.reloading ≡ false
  reload_from_idle (err e) r o = absurd (ground arith)
  reload_from_idle (ok (cert, roots)) r o = refl

  reload_if-IsCurrent :
      (limit : ℕ) (h : History C R) (provided : Provided C R E) (b : Bool) (r : Reconciler C R)
      → is_ok provided ≡ true
      → r.reloading ≡ false
      → IsCurrent limit h r
      → ((reload_if provided (b, r)).1.reloading ≡ false)
        × IsCurrent limit (if b then loaded provided h else h) (reload_if provided (b, r)).1
        × (source_of (reload_if provided (b, r)).1 ≡ source_of r)
  reload_if-IsCurrent limit h provided false r o q w = (q, w, refl)
  reload_if-IsCurrent limit h (err e) true r o q w = absurd (ground arith)
  reload_if-IsCurrent limit h (ok (cert, [])) true r o q w =
      (refl, reload_from-IsCurrent limit h (ok (cert, [])) r o w, refl)
  reload_if-IsCurrent limit h (ok (cert, ca ∷ cas)) true r o q w = (
    refl,
    reload_from-IsCurrent limit h (ok (cert, ca ∷ cas)) (record r { reloading = true }) o
        (record { limited = w.limited; roots = w.roots; pool = w.pool; cert = w.cert }),
    refl,
  )

  -- What a call makes of a current reconciler.
  record Goes (limit : ℕ) (h : History C R) (c : Call C R E) (r r' : Reconciler C R)
      : Type (ℓ ⊔ κ) where
    returns : call_step c r ≡ some r'
    idle : r'.reloading ≡ false
    current :
        IsCurrent limit (if (next_source c (source_of r)).0 then loaded c.provided h else h) r'
    source : source_of r' ≡ (next_source c (source_of r)).1

  call_step-Goes :
      (limit : ℕ) (h : History C R) (c : Call C R E) (r : Reconciler C R)
      → is_ok c.provided ≡ true
      → r.reloading ≡ false
      → IsCurrent limit h r
      → (r' : Reconciler C R) × Goes limit h c r r'
  unfolding call_step certificates need_reload next_source ask_reload
  call_step-Goes limit h c r o q w = elim (Bool-cases r.started) [
    | inl f ↦
        let asked = ask_reload c.wants c.now r.reload in
        let r2 = record r { started = true; reload = asked.1 } in
        let g =
          reload_if-IsCurrent limit h c.provided asked.0 r2 o q
            (record { limited = w.limited; roots = w.roots; pool = w.pool; cert = w.cert }) in
        (
          (reload_if c.provided (asked.0, r2)).1,
          record {
            returns = rw (q, f) refl;
            idle = g.0;
            current = rw f (g.1);
            source = g.2 ∙ rw f refl;
          },
        )
    | inr f ↦
        let r2 = record r { started = true } in
        let g =
          reload_if-IsCurrent limit h c.provided true r2 o q
            (record { limited = w.limited; roots = w.roots; pool = w.pool; cert = w.cert }) in
        (
          (reload_if c.provided (true, r2)).1,
          record {
            returns = rw (q, f) refl;
            idle = g.0;
            current = rw f (g.1);
            source = g.2 ∙ rw f refl;
          },
        )
  ]

  abbrev pub succeeds : Call C R E → Bool
  succeeds c = is_ok c.provided

  steps-IsCurrent :
      (limit : ℕ) (calls : List (Call C R E)) (h : History C R) (r : Reconciler C R)
      → all succeeds calls ≡ true
      → r.reloading ≡ false
      → IsCurrent limit h r
      → (r' : Reconciler C R) × (steps call_step calls r ≡ some r')
        × (r'.reloading ≡ false)
        × IsCurrent limit (history calls (source_of r) h) r'
  unfolding steps history
  steps-IsCurrent limit [] h r o q w = (r, refl, q, w)
  steps-IsCurrent limit (c ∷ calls) h r o q w =
      let (r1, g) = call_step-Goes limit h c r (ground arith) q w in
      let (r2, e, q2, w2) = steps-IsCurrent limit calls _ r1 (ground arith) g.idle g.current in
      (r2, rw g.returns e, q2, rw g.source at w2)

  -- From any options, when no load that is tried fails, every call returns; then the roots and the pool
  -- are the newest of all roots that were given, as many as the limit, no pool is set before there is a
  -- root, and the certificate is that of the last load.
  pub tls_config-IsCurrent :
      (settings : List Setting) (calls : List (Call C R E)) (r : Reconciler C R)
      → tls_config settings ≡ some r
      → all succeeds calls ≡ true
      → (r' : Reconciler C R) × (steps call_step calls r ≡ some r')
        × (r'.reloading ≡ false)
        × IsCurrent r.roots_limit (history calls (source_of r) no_history) r'
  tls_config-IsCurrent settings calls r e o =
      let (idle, roots, pool, cert) = tls_config-IsFresh settings r e in
      steps-IsCurrent r.roots_limit calls no_history r o idle (record {
        limited = refl;
        roots = roots ∙ sym (take-nil r.roots_limit);
        pool = pool;
        cert = cert;
      })
