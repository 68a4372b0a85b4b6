-- ===== src/Lock/Exclusion.antt =====
-- Who holds the lock.
use cloudzero_agent.Base.{
  ℕ, suc, Bool, true, false, Option, none, some, eqb, eqb_iff, update, List, all, steps, steps_inv,
  Bool-cases, Option-cases, of_some, inl, inr, ◌≡◌, ◌≢◌, ◌⊎◌, refl, arith,
}
use cloudzero_agent.Lock.Defs.{
  Content, unwritten, written, Phase, idle, opened, holding, losing, abandoned, trying, present,
  updating, checked, Action, acquire, create, write, fail_write, read, remove_stale, fail_refresh,
  rename, release, Config, open_file, write_file, read_file, is_owner, move, Locks, new_locks,
  Event, tick, act, moved_to, step, holds,
}

-- The file is the one that an opened process has created, and that of a process that holds the lock is
-- its own.
abbrev has_file : ℕ → Phase → Option Content → Bool
has_file p opened (some (unwritten q)) = eqb q p
has_file p opened file = false
has_file p holding file = is_owner p file
has_file p (updating timestamp) file = is_owner p file
has_file p (checked timestamp) file = is_owner p file
has_file p losing file = false
has_file p abandoned file = false
has_file p phase file = true

-- No stale lock is removed, and no refresh fails.
abbrev pub is_timely : Action → Bool
is_timely remove_stale = false
is_timely fail_refresh = false
is_timely action = true

open_file-has_file :
    (p retry : ℕ) (file : Option Content)
    → has_file p (open_file p retry file).0 (open_file p retry file).1 ≡ true
open_file-has_file p retry none = ground arith
open_file-has_file p retry (some c) = refl

write_file-has_file :
    (p now : ℕ) (file : Option Content)
    → has_file p opened file ≡ true
    → has_file p holding (write_file p now file) ≡ true
write_file-has_file p now none h = ground arith
write_file-has_file p now (some (unwritten q)) h = ground arith
write_file-has_file p now (some (written q t)) h = ground arith

read_file-has_file :
    (config : Config) (p now retry : ℕ) (file : Option Content)
    → has_file p (read_file config now retry file) file ≡ true
read_file-has_file config p now retry none = refl
read_file-has_file config p now retry (some (unwritten q)) = refl
read_file-has_file config p now retry (some (written q t)) = ground arith

move-has_file :
    (config : Config) (p now : ℕ) (action : Action) (phase : Phase) (file : Option Content)
    (m : Phase × Option Content)
    → is_timely action ≡ true
    → has_file p phase file ≡ true
    → move config p now action phase file ≡ some m
    → has_file p m.0 m.1 ≡ true
unfolding move
move-has_file config p now acquire idle file m k h e = ground arith
move-has_file config p now create (trying retry) file m k h e =
    ground (arith, open_file-has_file p retry file)
move-has_file config p now write opened file m k h e =
    ground (arith, write_file-has_file p now file h)
move-has_file config p now read (present retry) file m k h e =
    ground (arith, read_file-has_file config p now retry file)
move-has_file config p now _ _ file m k h e = ground arith

-- There is no file, or it is that of the process.
abbrev touches : ℕ → Option Content → Bool
touches p none = true
touches p (some (unwritten q)) = eqb q p
touches p (some (written q timestamp)) = eqb q p

owner-touches : (p : ℕ) (file : Option Content) → is_owner p file ≡ true → touches p file ≡ true
owner-touches p none h = refl
owner-touches p (some (unwritten q)) h = absurd (ground arith)
owner-touches p (some (written q t)) h = h

opened-touches :
    (p : ℕ) (file : Option Content) → has_file p opened file ≡ true → touches p file ≡ true
opened-touches p none h = refl
opened-touches p (some (unwritten q)) h = h
opened-touches p (some (written q t)) h = absurd (ground arith)

open_file-touches :
    (p retry : ℕ) (file : Option Content)
    → ((open_file p retry file).1 ≡ file) ⊎ (touches p file ≡ true)
open_file-touches p retry none = inr refl
open_file-touches p retry (some c) = inl refl

-- A move leaves the file as it is, or the file is not that of another process.
move-touches :
    (config : Config) (p now : ℕ) (action : Action) (phase : Phase) (file : Option Content)
    (m : Phase × Option Content)
    → is_timely action ≡ true
    → has_file p phase file ≡ true
    → move config p now action phase file ≡ some m
    → (m.1 ≡ file) ⊎ (touches p file ≡ true)
unfolding move
move-touches config p now create (trying retry) file m k h e =
    ground (arith, open_file-touches p retry file)
move-touches config p now write opened file m k h e = inr (opened-touches p file h)
move-touches config p now fail_write opened file m k h e = inr (opened-touches p file h)
move-touches config p now rename (checked t) file m k h e = inr (owner-touches p file h)
move-touches config p now release holding file m k h e = inr (owner-touches p file h)
move-touches config p now acquire idle file m k h e = ground arith
move-touches config p now _ _ file m k h e = ground arith

-- What a process does with its own file does not touch the others.
other-has_file :
    (p q : ℕ) (phase : Phase) (file file' : Option Content)
    → q ≢ p
    → touches p file ≡ true
    → has_file q phase file ≡ true
    → has_file q phase file' ≡ true
other-has_file p q idle file file' n t h = refl
other-has_file p q _ none file' n t h = ground arith
other-has_file p q _ (some (unwritten r)) file' n t h = ground arith
other-has_file p q _ (some (written r time)) file' n t h = ground arith

abbrev IsExclusive : Locks → Type 0
IsExclusive s = (p : ℕ) → has_file p (s.phase p) s.file ≡ true

abbrev pub timely_event : Event → Bool
timely_event tick = true
timely_event (act p action) = is_timely action

moved_to-IsExclusive :
    (config : Config) (p : ℕ) (action : Action) (s : Locks) (m : Phase × Option Content)
    → is_timely action ≡ true
    → IsExclusive s
    → move config p s.now action (s.phase p) s.file ≡ some m
    → IsExclusive (moved_to p s m)
unfolding update
moved_to-IsExclusive config p action s (phase, file) k w e q = elim (Bool-cases (eqb q p)) [
  | inl f ↦
      rw (f, (eqb_iff q p).0 f)
        (move-has_file config p s.now action (s.phase p) s.file (phase, file) k (w p) e)
  | inr f ↦
      rw f (elim (move-touches config p s.now action (s.phase p) s.file (phase, file) k (w p) e) [
        | inl g ↦ rw g (w q)
        | inr t ↦ other-has_file p q (s.phase q) s.file file (λ g. ground (arith, f, g)) t (w q)
      ])
]

step-IsExclusive :
    (config : Config) (e : Event) (s t : Locks)
    → timely_event e ≡ true
    → IsExclusive s
    → step config e s ≡ some t
    → IsExclusive t
unfolding step
step-IsExclusive config tick s t k w e = of_some IsExclusive (record s { now = suc s.now }) t e w
step-IsExclusive config (act p action) s t k w e =
    elim (Option-cases (move config p s.now action (s.phase p) s.file)) [
      | inl f ↦ absurd (ground (arith, rw f at e))
      | inr (m, f) ↦
          of_some IsExclusive (moved_to p s m) t (rw f at e)
            (moved_to-IsExclusive config p action s m k w f)
    ]

holds-owner :
    (p : ℕ) (phase : Phase) (file : Option Content)
    → holds phase ≡ true
    → has_file p phase file ≡ true
    → is_owner p file ≡ true
holds-owner p idle file h w = absurd (ground arith)
holds-owner p holding file h w = w
holds-owner p _ file h w = ground arith

same_owner :
    (p q : ℕ) (file : Option Content) → is_owner p file ≡ true → is_owner q file ≡ true → p ≡ q
same_owner p q none h k = absurd (ground arith)
same_owner p q (some (unwritten r)) h k = absurd (ground arith)
same_owner p q (some (written r t)) h k = ground arith

-- Whatever file is there at first, in any history of any number of processes in which no process removes
-- a stale lock and no refresh fails, two processes that hold the lock are the same one.
pub steps-exclusive :
    (config : Config) (events : List Event) (file : Option Content) (s : Locks) (p q : ℕ)
    → all timely_event events ≡ true
    → steps (step config) events (new_locks file) ≡ some s
    → holds (s.phase p) ≡ true
    → holds (s.phase q) ≡ true
    → p ≡ q
steps-exclusive config events file s p q k e hp hq =
    let w =
      steps_inv (step config) timely_event IsExclusive (step-IsExclusive config) events
        (new_locks file) s k (λ r. refl) e in
    same_owner p q s.file (holds-owner p (s.phase p) s.file hp (w p))
      (holds-owner q (s.phase q) s.file hq (w q))
