-- ===== src/Daemon/Run.antt =====
-- internal/daemon/daemon.go: Run, as the sequence of what it does to the lock, the socket, the
-- store, the scheduler and the server. What each call answers is a parameter.
pub mod Order
pub mod Fleet
use sonata.Prelude.{
  Bool, true, false, ◌&&◌, Option, none, some, List, [], ◌∷◌, ◌++◌, Result, ok, err, if◌then◌else◌,
}
use sonata.Prelude.Int.{ℤ, pos, ltb_ℤ}
use sonata.Daemon.Lock.{LockError, open_failed, locked, flock_failed, timed_out}

pub data Effect : Type 0 where
  take_lock write_pid remove_stale listen restrict close_listener open_store reap : Effect
  start_scheduler await_ready serve stop_serving : Effect
  stop_scheduler close_store remove_socket release_lock : Effect

-- os.Remove: a file that is not there is no failure.
pub data Removal : Type 0 where
  removed absent refused : Removal

-- Why the last select ends.
pub data Ending : Type 0 where
  serve_error serve_closed signal idle_timeout : Ending

pub record Outcomes : Type 0 where
  pub makes_dir : Bool
  pub lock : Result LockError (Unit {0})
  pub holder : ℤ × Bool
  pub writes_pid : Bool
  pub removes_stale : Removal
  pub listens : Bool
  pub restricts : Bool
  pub opens_store : Bool
  pub reaps : Bool
  pub gets_ready : Bool
  pub ending : Ending

pub data RunError : Type 0 where
  dir_error pid_error stale_error listen_error chmod_error store_error : RunError
  reap_error scheduler_error server_error : RunError
  already_running : Option ℤ → RunError
  lock_error : LockError → RunError

abbrev pub Outcome : Type 0
Outcome = List Effect × Result RunError (Unit {0})

-- A step that succeeds, with what follows it.
unfoldable pub then_do : Effect → Outcome → Outcome
then_do e (es, r) = (e ∷ es, r)

-- `defer`: done after all that follows it, whatever the result.
unfoldable pub deferring : Effect → Outcome → Outcome
deferring e (es, r) = (es ++ e ∷ [], r)

-- The pid in the message, if the lock's holder is found and named.
unfoldable pub other_daemon : ℤ × Bool → RunError
other_daemon (pid, found) = already_running (if found && ltb_ℤ (pos 0) pid then some pid else none)

-- From the last select on: only a signal or the idle timeout shuts the server down; Serve that
-- returns has closed its listener itself.
unfoldable pub end_run : Ending → Outcome
end_run serve_error = (stop_serving ∷ [], err server_error)
end_run serve_closed = (stop_serving ∷ [], ok tt)
end_run signal = (stop_serving ∷ [], ok tt)
end_run idle_timeout = (stop_serving ∷ [], ok tt)

unfoldable pub run_scheduler : Outcomes → Outcome
unfolding then_do deferring end_run
run_scheduler o = then_do start_scheduler (
    deferring stop_scheduler (
      if o.gets_ready
      then then_do await_ready (then_do serve (end_run o.ending))
      else ([], err scheduler_error)))

unfoldable pub run_store : Outcomes → Outcome
unfolding then_do deferring run_scheduler
run_store o =
    if o.opens_store
    then then_do open_store (
        deferring close_store
          (if o.reaps then then_do reap (run_scheduler o) else ([], err reap_error)))
    else ([], err store_error)

unfoldable pub run_socket : Outcomes → Outcome
unfolding then_do deferring run_store
run_socket o =
    if o.listens
    then then_do listen (
        if o.restricts
        then then_do restrict (deferring remove_socket (run_store o))
        else (close_listener ∷ [], err chmod_error))
    else ([], err listen_error)

unfoldable pub after_removal : Removal → Outcomes → Outcome
unfolding then_do run_socket
after_removal refused o = ([], err stale_error)
after_removal removed o = then_do remove_stale (run_socket o)
after_removal absent o = then_do remove_stale (run_socket o)

unfoldable pub run_locked : Outcomes → Outcome
unfolding then_do deferring after_removal
run_locked o = then_do take_lock (
    deferring release_lock (
      if o.writes_pid
      then then_do write_pid (after_removal o.removes_stale o)
      else ([], err pid_error)))

-- Both errors that are ErrLocked tell of another daemon.
unfoldable pub after_lock : Result LockError (Unit {0}) → Outcomes → Outcome
unfolding run_locked other_daemon
after_lock (ok u) o = run_locked o
after_lock (err locked) o = ([], err (other_daemon o.holder))
after_lock (err timed_out) o = ([], err (other_daemon o.holder))
after_lock (err open_failed) o = ([], err (lock_error open_failed))
after_lock (err flock_failed) o = ([], err (lock_error flock_failed))

-- Run.
unfoldable pub run : Outcomes → Outcome
unfolding after_lock
run o = if o.makes_dir then after_lock o.lock o else ([], err dir_error)
