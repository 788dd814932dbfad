-- ===== src/Daemon/Spawn.antt =====
-- internal/daemon/spawn.go: starting a detached daemon, waiting until it answers, reading the end of
-- its log, and stopping it. What the operating system and the daemon answer are parameters; a loop
-- that polls runs on fuel.
pub mod Graceful
pub mod Ready
use sonata.Prelude.{
  ℕ, zero, suc, ◌+◌, ◌-◌, Bool, true, false, not, ◌&&◌, Option, none, some, List, [], ◌∷◌, ◌++◌,
  Text, codes, Result, ok, err, ltb, length, take, drop, if◌then◌else◌,
}
use sonata.Prelude.Int.{ℤ, pos, ltb_ℤ}
use sonata.Config.{Config, Printer, env}
use sonata.Daemon.Lock.{Signalled, delivered, not_permitted, no_process, alive}
use sonata.Daemon.Run.{Removal, removed, absent, refused}
use sonata.Api.Transport.{ClientError, no_daemon}

pub data SpawnError : Type 0 where
  no_binary no_log not_started not_released : SpawnError

-- How the calls of Spawn go; `starts` has the child's pid.
pub record Spawning : Type 0 where
  pub finds_binary : Bool
  pub opens_log : Bool
  pub starts : Option ℤ
  pub releases : Bool

unfoldable pub spawn_args : Printer → ℤ → List Text
spawn_args print idle_timeout =
    if ltb_ℤ (pos 0) idle_timeout
    then codes "daemon" ∷ codes "--idle-timeout" ∷ print.duration_text idle_timeout ∷ []
    else codes "daemon" ∷ []

-- The child's environment: the parent's, then the resolved settings.
unfoldable pub spawn_env : Printer → Config → List (Text × Text) → List (Text × Text)
unfolding env
spawn_env print c environ = environ ++ env print c

unfoldable pub started : Option ℤ → Bool → ℤ × Result SpawnError (Unit {0})
started none releases = (pos 0, err not_started)
started (some pid) true = (pid, ok tt)
started (some pid) false = (pid, err not_released)

-- Spawn.
unfoldable pub spawn : Spawning → ℤ × Result SpawnError (Unit {0})
unfolding started
spawn os =
    if os.finds_binary
    then (if os.opens_log then started os.starts os.releases else (pos 0, err no_log))
    else (pos 0, err no_binary)

-- LogTail: the size is that of Stat; by the time of ReadAt the file may have grown.
unfoldable pub log_tail : ℕ → ℕ → Option Text → Text
log_tail n size none = []
log_tail n size (some contents) = take (size - (size - n)) (drop (size - n) contents)

-- 25 ms.
abbrev pub ready_poll_interval : ℕ
ready_poll_interval = 25000000

-- Why WaitReady gives up: the last probe found no daemon, or failed otherwise.
pub data NotReady : Type 0 where
  timed_out : NotReady
  timed_out_after : ClientError → NotReady

unfoldable pub not_ready : ClientError → NotReady
not_ready no_daemon = timed_out
not_ready e = timed_out_after e

-- The k-th probe of health, and whether the select after it takes the end of the context.
pub record Probes (Health : Type 0) : Type 0 where
  pub health : ℕ → Result ClientError Health
  pub done : ℕ → Bool

module _ {Health : Type 0} where
  -- The body of the loop, with the rest of the loop.
  unfoldable pub after_probe :
      Result ClientError Health
      → Bool
      → Option (Result NotReady Health)
      → Option (Result NotReady Health)
  unfolding not_ready
  after_probe (ok h) done rest = some (ok h)
  after_probe (err e) true rest = some (err (not_ready e))
  after_probe (err e) false rest = rest

  -- WaitReady, from the k-th probe on.
  unfoldable pub wait_ready : Probes Health → ℕ → ℕ → Option (Result NotReady Health)
  unfolding after_probe
  wait_ready os k zero = none
  wait_ready os k (suc fuel) =
      let rest = wait_ready os (suc k) fuel in after_probe (os.health k) (os.done k) rest

-- What kill(2) answers to a signal.
pub data Kill : Type 0 where
  sent esrch denied : Kill

pub data StopEffect : Type 0 where
  sigterm sigkill remove_socket : StopEffect

pub data StopError : Type 0 where
  not_signalled not_killed not_removed : StopError

-- What Stop meets. Its loop reads the clock for the k-th time, then asks whether the process lives
-- and whether there is a file at the socket's path.
pub record Stopping : Type 0 where
  pub term : Kill
  pub clock : ℕ → ℕ
  pub process : ℕ → Signalled
  pub socket : ℕ → Bool
  pub kill : Kill
  pub remove : Removal

-- What Stop has done, whether it reports a kill, and its error.
abbrev pub Stopped : Type 0
Stopped = List StopEffect × Bool × Result StopError (Unit {0})

unfoldable pub gone : ℤ → Stopping → ℕ → Bool
unfolding alive
gone pid os k = not (alive pid (os.process k)) && not (os.socket k)

-- The loop from its k-th round on: true when it returns, false when the deadline has passed.
unfoldable pub wait_gone : ℤ → Stopping → ℕ → ℕ → ℕ → Option Bool
unfolding gone
wait_gone pid os deadline k zero = none
wait_gone pid os deadline k (suc fuel) =
    let rest = wait_gone pid os deadline (suc k) fuel in
    if ltb (os.clock k) deadline then (if gone pid os k then some true else rest) else some false

unfoldable pub cleared : Removal → Stopped
cleared refused = (sigterm ∷ sigkill ∷ remove_socket ∷ [], true, err not_removed)
cleared removed = (sigterm ∷ sigkill ∷ remove_socket ∷ [], true, ok tt)
cleared absent = (sigterm ∷ sigkill ∷ remove_socket ∷ [], true, ok tt)

unfoldable pub killed : Kill → Removal → Stopped
unfolding cleared
killed denied r = (sigterm ∷ sigkill ∷ [], true, err not_killed)
killed sent r = cleared r
killed esrch r = cleared r

unfoldable pub after_wait : Stopping → Option Bool → Option Stopped
unfolding killed
after_wait os none = none
after_wait os (some true) = some (sigterm ∷ [], false, ok tt)
after_wait os (some false) = some (killed os.kill os.remove)

unfoldable pub after_term : Kill → Option Stopped → Option Stopped
after_term sent rest = rest
after_term esrch rest = some (sigterm ∷ [], false, ok tt)
after_term denied rest = some (sigterm ∷ [], false, err not_signalled)

-- Stop, called at `start`.
unfoldable pub stop : ℤ → Stopping → ℕ → ℕ → ℕ → Option Stopped
unfolding after_term after_wait wait_gone
stop pid os start timeout fuel =
    after_term os.term (after_wait os (wait_gone pid os (start + timeout) 0 fuel))
