-- ===== src/Cli/Lifecycle.antt =====
-- internal/cli: status.go, down.go, up.go, daemon.go and ensure.go.
use sonata.Prelude.{
  ℕ, Bool, true, false, Option, none, some, Result, ok, err, ◌>>=◌, ◌>>◌, if◌then◌else◌,
}
use sonata.Prelude.Int.{ℤ, pos, ltb_ℤ}
use sonata.Api.Transport.{ClientError, no_daemon}
use sonata.Daemon.Run.{RunError}
use sonata.Daemon.Spawn.{Stopping, Stopped, StopError, stop}
use sonata.Daemon.Ensure.Sequence.{EnsureError}
use sonata.Api.Client.{Health}
use sonata.Cli.{
  CmdError, exit_error, exit_not_running, exit_operational, Format, table, json, write_json,
}

-- An error of another package, as failf reports it.
unfoldable pub operational {ℓ κ} : {E : Type κ} {A : Type ℓ} → Result E A → Result CmdError A
operational (ok a) = ok a
operational (err e) = err (exit_error exit_operational)

-- status: `encodes` is whether the JSON can be written.
unfoldable pub status_shown : Format → Bool → Result CmdError (Unit {0})
unfolding write_json
status_shown table encodes = ok tt
status_shown json encodes = write_json encodes

unfoldable pub status : Result ClientError Health → Format → Bool → Result CmdError (Unit {0})
unfolding status_shown
status (ok h) format encodes = status_shown format encodes
status (err no_daemon) format encodes =
    status_shown format encodes >> err (exit_error exit_not_running)
status (err e) format encodes = err (exit_error exit_operational)

-- resolveDaemonPID after a health probe that found no daemon, from RunningPID.
unfoldable pub lock_holder : ℤ × Bool → Result CmdError (Option ℤ)
lock_holder (pid, false) = ok none
lock_holder (pid, true) =
    if ltb_ℤ (pos 0) pid then ok (some pid) else err (exit_error exit_operational)

-- resolveDaemonPID: the pid of the daemon, if one is running.
unfoldable pub resolve_daemon_pid :
    Result ClientError Health → ℤ × Bool → Result CmdError (Option ℤ)
unfolding lock_holder
resolve_daemon_pid (ok h) holder = ok (some h.pid)
resolve_daemon_pid (err no_daemon) holder = lock_holder holder
resolve_daemon_pid (err e) holder = err (exit_error exit_operational)

-- The end of down: a kill is an error.
unfoldable pub stop_result : Bool → Result StopError (Unit {0}) → Result CmdError (Unit {0})
stop_result killed (err e) = err (exit_error exit_operational)
stop_result true (ok u) = err (exit_error exit_operational)
stop_result false (ok u) = ok tt

unfoldable pub after_stop : Option Stopped → Option (Result CmdError (Unit {0}))
unfolding stop_result
after_stop none = none
after_stop (some (effects, killed, r)) = some (stop_result killed r)

unfoldable pub down_resolved :
    Result CmdError (Option ℤ) → (ℤ → Option Stopped) → Option (Result CmdError (Unit {0}))
unfolding after_stop
down_resolved (err e) stops = some (err e)
down_resolved (ok none) stops = some (ok tt)
down_resolved (ok (some pid)) stops = after_stop (stops pid)

-- down, on the fuel of the loop in Stop.
unfoldable pub down :
    Result ClientError Health
    → ℤ × Bool
    → Stopping
    → ℕ
    → ℕ
    → ℕ
    → Option (Result CmdError (Unit {0}))
unfolding down_resolved resolve_daemon_pid stop
down health holder os start timeout fuel =
    down_resolved (resolve_daemon_pid health holder) (λ pid. stop pid os start timeout fuel)

-- The flag --idle-timeout where it is given, and the configured one elsewhere.
unfoldable pub chosen_timeout : Option ℤ → ℤ → ℤ
chosen_timeout none configured = configured
chosen_timeout (some timeout) configured = timeout

-- up and ensureClient, from the result of EnsureRunning.
unfoldable pub up : Result EnsureError (Health × Bool) → Result CmdError (Unit {0})
unfolding operational
up r = operational r >>= λ h. ok tt

unfoldable pub ensure_client : Result EnsureError (Health × Bool) → Result CmdError (Unit {0})
unfolding operational
ensure_client r = operational r >>= λ h. ok tt

-- The daemon command, from the result of Run.
unfoldable pub run_daemon : Result RunError (Unit {0}) → Result CmdError (Unit {0})
unfolding operational
run_daemon r = operational r
