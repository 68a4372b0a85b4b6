-- ===== src/Lock/Defs.antt =====
-- Processes that acquire, refresh and release one lock file, in atomic moves: one call of the operating
-- system each, with the tests that follow it. Each process has one `FileLock` and a number, which
-- stands for its host name and PID.
use cloudzero_agent.Base.{
  ℕ, suc, ◌+◌, Bool, true, false, Option, none, some, if◌then◌else◌, eqb, ltb, update,
}
use mathlib.Core.Option.{map}

-- `lockContent`, and a file that its creator has not written yet, which reads as corrupt.
pub data Content : Type 0 where
  unwritten : (creator : ℕ) → Content
  written : (owner timestamp : ℕ) → Content

pub data LockError : Type 0 where
  max_retry_exceeded context_cancelled failed_to_write failed_to_acquire : LockError

-- Where a process is: in `Acquire`, with its count of retries; as the holder of the lock, where its
-- `refreshLock` may be at work with the time that it wrote into its temporary file; or holding a lock
-- that `refreshLock` has given up.
pub data Phase : Type 0 where
  idle opened holding losing abandoned : Phase
  trying present stale_seen : (retry : ℕ) → Phase
  updating checked : (timestamp : ℕ) → Phase
  failed : LockError → Phase

pub data Action : Type 0 where
  acquire cancel create write fail_write read fail_read remove_stale fail_remove : Action
  begin_refresh fail_refresh check rename give_up release : Action

pub record Config : Type 0 where
  pub stale_timeout : ℕ
  pub max_retry : ℕ

abbrev pub Moved : Type 0
Moved = Option (Phase × Option Content)

-- `os.OpenFile` with `O_CREATE|O_EXCL`.
abbrev pub open_file : ℕ → ℕ → Option Content → Phase × Option Content
open_file p retry none = (opened, some (unwritten p))
open_file p retry (some c) = (present retry, some c)

-- `writeLock` to the file that the process created, which may have been removed since.
abbrev pub write_file : ℕ → ℕ → Option Content → Option Content
write_file p now (some (unwritten q)) = if eqb q p then some (written p now) else some (unwritten q)
write_file p now file = file

-- What `Acquire` makes of the content of a lock file that is there.
abbrev pub read_file : Config → ℕ → ℕ → Option Content → Phase
read_file config now retry none = trying retry
read_file config now retry (some (unwritten q)) = trying (suc retry)
read_file config now retry (some (written q timestamp)) =
    if ltb now (timestamp + config.stale_timeout) then trying (suc retry) else stale_seen retry

-- The test of `updateLock` that the lock belongs to this process.
abbrev pub is_owner : ℕ → Option Content → Bool
is_owner p (some (written q timestamp)) = eqb q p
is_owner p _ = false

-- One move of the process `p`. A process that fails to write its new lock file removes the file that
-- is there by then; the temporary file of `updateLock` is left out, but for its time.
unfoldable pub move : Config → ℕ → ℕ → Action → Phase → Option Content → Moved
move config p now acquire idle file = some (trying 0, file)
move config p now acquire (failed e) file = some (trying 0, file)
move config p now cancel (trying retry) file = some (failed context_cancelled, file)
move config p now create (trying retry) file = some (
    if ltb config.max_retry retry
    then (failed max_retry_exceeded, file)
    else open_file p retry file)
move config p now write opened file = some (holding, write_file p now file)
move config p now fail_write opened file = some (failed failed_to_write, none)
move config p now read (present retry) file = some (read_file config now retry file, file)
move config p now fail_read (present retry) file = some (failed failed_to_acquire, file)
move config p now remove_stale (stale_seen retry) file = some (trying retry, none)
move config p now fail_remove (stale_seen retry) file = some (failed failed_to_acquire, file)
move config p now begin_refresh holding file = some (updating now, file)
move config p now fail_refresh holding file = some (losing, file)
move config p now fail_refresh (checked timestamp) file = some (losing, file)
move config p now check (updating timestamp) file =
    some (if is_owner p file then checked timestamp else losing, file)
move config p now rename (checked timestamp) file = some (holding, some (written p timestamp))
move config p now give_up losing file = some (abandoned, none)
move config p now release holding file = some (idle, none)
move config p now release abandoned file = some (idle, none)
move config p now _ _ file = none

-- The clock, the lock file, and where each process is.
pub record Locks : Type 0 where
  pub now : ℕ
  pub file : Option Content
  pub phase : ℕ → Phase

abbrev pub new_locks : Option Content → Locks
new_locks file = record { now = 0; file = file; phase = λ p. idle }

pub data Event : Type 0 where
  tick : Event
  act : ℕ → Action → Event

abbrev pub moved_to : ℕ → Locks → Phase × Option Content → Locks
moved_to p s (phase, file) = record s { phase = update s.phase p phase; file = file }

unfoldable pub step : Config → Event → Locks → Option Locks
unfolding move
step config tick s = some (record s { now = suc s.now })
step config (act p action) s = map (moved_to p s) (move config p s.now action (s.phase p) s.file)

-- `Acquire` has returned without an error, and `Release` has not been called since.
abbrev pub holds : Phase → Bool
holds holding = true
holds (updating timestamp) = true
holds (checked timestamp) = true
holds losing = true
holds abandoned = true
holds phase = false
