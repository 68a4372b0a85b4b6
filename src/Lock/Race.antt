-- ===== src/Lock/Race.antt =====
-- Two processes that take the same lock for stale.
use cloudzero_agent.Base.{
  ℕ, ◌≤◌, true, false, some, List, [], ◌∷◌, ◌++◌, eqb, eqb_iff, ltb, update, update_same,
  update_other, steps, steps-append, ◌≡◌, ◌≢◌, refl, ap, sym, ◌∙◌, arith,
}
use cloudzero_agent.Lock.Defs.{
  written, Phase, holding, opened, trying, stale_seen, create, write, remove_stale, Config, move,
  Locks, Event, act, step, holds,
}

-- A process removes the lock that it has seen to be stale, and takes the lock.
abbrev pub take_over : ℕ → List Event
take_over p = act p remove_stale ∷ act p create ∷ act p write ∷ []

taken_phase : (ℕ → Phase) → ℕ → ℕ → ℕ → Phase
taken_phase phase p retry = update (update (update phase p (trying retry)) p opened) p holding

abbrev taken : Locks → ℕ → ℕ → Locks
taken s p retry = record s { file = some (written p s.now); phase = taken_phase s.phase p retry }

steps-take_over :
    (config : Config) (s : Locks) (p retry : ℕ)
    → s.phase p ≡ stale_seen retry
    → retry ≤ config.max_retry
    → steps (step config) (take_over p) s ≡ some (taken s p retry)
unfolding steps step move update taken_phase
steps-take_over config s p retry h le =
    let few : ltb config.max_retry retry ≡ false = ground arith in
    let same : eqb p p ≡ true = (eqb_iff p p).1 refl in rw (h, same, few, same, same) refl

taken-holds : (s : Locks) (p retry : ℕ) → (taken s p retry).phase p ≡ holding
unfolding taken_phase
taken-holds s p retry = update_same _ p holding

taken-phase : (s : Locks) (p retry q : ℕ) → q ≢ p → (taken s p retry).phase q ≡ s.phase q
unfolding taken_phase
taken-phase s p retry q n =
    update_other _ p q holding n
    ∙ update_other _ p q opened n
    ∙ update_other s.phase p q (trying retry) n

-- When two processes have read the same stale lock and have retries left, each may remove a lock file
-- and create its own, one after the other; then both hold the lock, and the file is the one of the
-- second.
pub steps-take_over_twice :
    (config : Config) (s : Locks) (p q retry retry' : ℕ)
    → q ≢ p
    → s.phase p ≡ stale_seen retry
    → s.phase q ≡ stale_seen retry'
    → retry ≤ config.max_retry
    → retry' ≤ config.max_retry
    → (t : Locks) × (steps (step config) (take_over p ++ take_over q) s ≡ some t)
      × (holds (t.phase p) ≡ true)
      × (holds (t.phase q) ≡ true)
      × (t.file ≡ some (written q t.now))
steps-take_over_twice config s p q retry retry' n hp hq le le' = (
  taken (taken s p retry) q retry',
  steps-append (step config) (take_over p) (take_over q) s (taken s p retry)
        (steps-take_over config s p retry hp le)
      ∙ steps-take_over config (taken s p retry) q retry' (taken-phase s p retry q n ∙ hq) le',
  ap holds (taken-phase (taken s p retry) q retry' p (λ e. n (sym e)) ∙ taken-holds s p retry),
  ap holds (taken-holds (taken s p retry) q retry'),
  refl,
)
