-- ===== src/Daemon/Ensure/Sequence.antt =====
-- internal/daemon/ensure.go: one call of EnsureRunning, as the sequence of what it does and its
-- result. What the calls that it makes answer is a parameter.
use sonata.Prelude.{◌==◌}
use sonata.Prelude.{Bool, true, false, List, [], ◌∷◌, ◌++◌, Text, Result, ok, err, if◌then◌else◌}
use sonata.Prelude.Int.{ℤ, pos, negsuc, ltb_ℤ}
use sonata.Prelude.Spaces.{trim_space}
use sonata.Api.Transport.{ClientError, no_daemon}
use sonata.Api.Client.{Health}
use sonata.Daemon.Lock.{LockError}
use sonata.Daemon.Run.{Removal, removed, absent, refused}
use sonata.Daemon.Spawn.{NotReady, SpawnError, not_released, Spawning, spawn}

pub data Action : Type 0 where
  take_start_lock remove_stale release_start_lock : Action
  -- A process that has been started, and one that Stop is called for.
  starts stops : ℤ → Action

pub data EnsureError : Type 0 where
  dir_error stale_error : EnsureError
  start_lock_error : LockError → EnsureError
  probe_error : ClientError → EnsureError
  spawn_error : SpawnError → EnsureError
  start_error : NotReady → Text → EnsureError
  other_pid : ℤ → ℤ → EnsureError

-- What MkdirAll, AcquireWait, the first Health, os.Remove, Spawn, WaitReady and LogTail answer.
pub record Ensuring : Type 0 where
  pub makes_dir : Bool
  pub lock : Result LockError (Unit {0})
  pub probe : Result ClientError Health
  pub remove : Removal
  pub spawning : Spawning
  pub ready : Result NotReady Health
  pub log : Text

abbrev pub Ensured : Type 0
Ensured = List Action × Result EnsureError (Health × Bool)

-- A timeout that is not positive stands for its default, ten seconds.
abbrev pub default_timeout : ℤ
default_timeout = pos 10000000000

unfoldable pub timeout_or_default : ℤ → ℤ
timeout_or_default timeout = if ltb_ℤ (pos 0) timeout then timeout else default_timeout

unfoldable pub then_act : Action → Ensured → Ensured
then_act a (actions, r) = (a ∷ actions, r)

unfoldable pub finally : Action → Ensured → Ensured
finally a (actions, r) = (actions ++ a ∷ [], r)

unfoldable pub same_pid : ℤ → ℤ → Bool
same_pid (pos a) (pos b) = a == b
same_pid (negsuc a) (negsuc b) = a == b
same_pid _ _ = false

-- The process is started; it has to answer, and be the one that answers.
unfoldable pub after_ready : ℤ → Text → Result NotReady Health → Ensured
unfolding same_pid trim_space
after_ready pid log (err e) = (stops pid ∷ [], err (start_error e (trim_space log)))
after_ready pid log (ok h) =
    ([], if same_pid h.pid pid then ok (h, true) else err (other_pid h.pid pid))

-- The child of Spawn runs from its start on, also where Spawn fails after it.
unfoldable pub after_spawn : Ensuring → ℤ × Result SpawnError (Unit {0}) → Ensured
unfolding then_act after_ready
after_spawn o (pid, ok u) = then_act (starts pid) (after_ready pid o.log o.ready)
after_spawn o (pid, err not_released) = (starts pid ∷ [], err (spawn_error not_released))
after_spawn o (pid, err e) = ([], err (spawn_error e))

unfoldable pub after_removal : Ensuring → Removal → Ensured
unfolding then_act after_spawn spawn
after_removal o refused = ([], err stale_error)
after_removal o removed = then_act remove_stale (after_spawn o (spawn o.spawning))
after_removal o absent = then_act remove_stale (after_spawn o (spawn o.spawning))

unfoldable pub after_probe : Ensuring → Result ClientError Health → Ensured
unfolding after_removal
after_probe o (ok h) = ([], ok (h, false))
after_probe o (err no_daemon) = after_removal o o.remove
after_probe o (err e) = ([], err (probe_error e))

unfoldable pub after_start_lock : Ensuring → Result LockError (Unit {0}) → Ensured
unfolding then_act finally after_probe
after_start_lock o (ok u) =
    then_act take_start_lock (finally release_start_lock (after_probe o o.probe))
after_start_lock o (err e) = ([], err (start_lock_error e))

-- EnsureRunning.
unfoldable pub ensure_running : Ensuring → Ensured
unfolding after_start_lock
ensure_running o = if o.makes_dir then after_start_lock o o.lock else ([], err dir_error)
