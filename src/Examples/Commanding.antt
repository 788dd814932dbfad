-- ===== src/Examples/Commanding.antt =====
-- The command line: stopping a daemon, and the exit codes of the data commands.
use sonata.Prelude.{[], ◌∷◌}
use sonata.Api.Transport.{no_daemon}
use sonata.Prelude.{ℕ, suc, ◌+◌, ◌*◌, ◌≤◌, ◌≡◌, refl, true, false, some, codes, ok, err, arith}
use sonata.Prelude.Int.{pos, negsuc}
use sonata.Api.Transport.{connection_failed}
use sonata.Daemon.Lock.{no_process}
use sonata.Daemon.Run.{removed}
use sonata.Daemon.Spawn.{
  ready_poll_interval, sent, esrch, sigterm, sigkill, remove_socket, Stopping, stop,
}
use sonata.Daemon.Spawn.Graceful.{stop-removes}
use sonata.Api.Client.{Health}
use sonata.Prelude.Spaces.{is_space}
use sonata.Daemon.Lock.{locked, PidWrite, write_pid, running_pid}
use sonata.Cli.Naming.{resolve_daemon_pid-write_pid}
use sonata.Cli.{table}
use sonata.Cli.Lifecycle.{resolve_daemon_pid, down}
use sonata.Cli.Stopping.{DownExits, down-DownExits}
use sonata.Api.Client.{Client}
use sonata.Cli.Commands.{shows_action, Shell, run_command}
use sonata.Cli.Exits.{Exits, run_command-Exits}
use sonata.Examples.Fixtures.{cel, ship}
use sonata.Examples.Defining.{codec}

-- The process is gone from the first poll on, and another daemon has made its socket.
abbrev successor : Stopping
successor = record {
  term = sent;
  clock = λ k. ready_poll_interval * k;
  process = λ k. no_process;
  socket = λ k. true;
  kill = esrch;
  remove = removed;
}

successor_sleeps :
    (k : ℕ) → ready_poll_interval * k + ready_poll_interval ≤ ready_poll_interval * suc k
successor_sleeps k = omega arith

stop-removes_example :
    stop (pos 7) successor 0 50000000 4 ≡ some (sigterm ∷ sigkill ∷ remove_socket ∷ [], true, ok tt)
stop-removes_example =
    stop-removes (pos 7) successor 0 50000000 3 successor_sleeps (omega arith) (omega arith) refl
      (λ k. refl) (λ e. cc e) (λ e. cc e)

abbrev healthy : Health
healthy = record { pid = pos 7; version = codes "1" }

down-DownExits_example :
    DownExits
      (resolve_daemon_pid (ok healthy) (pos 0, false))
      successor
      (0 + 50000000)
      (down (ok healthy) (pos 0, false) successor 0 50000000 4)
down-DownExits_example =
    down-DownExits (ok healthy) (pos 0, false) successor 0 50000000 3 successor_sleeps (omega arith)
      (omega arith)

-- A client whose calls all fail.
abbrev unreachable : Client
unreachable = record {
  send_message = λ req. err connection_failed;
  list_messages = λ options. err connection_failed;
  show_message = λ id. err connection_failed;
  list_queues = err connection_failed;
  apply_action = λ definition. err connection_failed;
  list_actions = err connection_failed;
  show_action = λ name version. err connection_failed;
  set_action_enabled = λ name enabled. err connection_failed;
  list_deliveries = λ options. err connection_failed;
  show_delivery = λ id. err connection_failed;
  replay_delivery = λ id. err connection_failed;
}

abbrev shell : Shell
shell = record {
  valid = λ text. true;
  quote = λ text. text;
  cel = cel;
  ensured = ok (healthy, true);
  client = unreachable;
  format = table;
  writes = true;
}

-- A negative version is refused before the daemon is called.
run_command-Exits_example :
    Exits shell.ensured (run_command codec shell (shows_action ship (negsuc 0)))
run_command-Exits_example = run_command-Exits codec shell (shows_action ship (negsuc 0))

abbrev write_succeeds : PidWrite
write_succeeds = record { partial = []; truncates = true; writes = true; syncs = true }

resolve_daemon_pid-write_pid_example :
    resolve_daemon_pid (err no_daemon) (
      running_pid
        (λ t. some (pos 7))
        (some (write_pid (λ n. codes "7") write_succeeds (pos 7) (codes "1234")).1)
        (err locked))
    ≡ ok (some (pos 7))
unfolding write_pid is_space
resolve_daemon_pid-write_pid_example =
    resolve_daemon_pid-write_pid (λ n. codes "7") (λ t. some (pos 7)) write_succeeds (pos 7)
      (codes "1234") refl (refl, tt) refl refl
