-- ===== src/Daemon/Run/Order.antt =====
-- internal/daemon/daemon.go, Run: which order of steps is safe.
use sonata.Prelude.{
  Bool, true, false, not, ◌&&◌, Option, none, some, List, [], ◌∷◌, Result, ok, err, if◌then◌else◌,
  ◌≡◌, refl,
}
use sonata.Prelude.Int.{ℤ}
use sonata.Daemon.Lock.{LockError, open_failed, locked, flock_failed, timed_out}
use sonata.Daemon.Run.{
  Effect, take_lock, write_pid, remove_stale, listen, restrict, close_listener, open_store, reap,
  start_scheduler, await_ready, serve, stop_serving, stop_scheduler, close_store, remove_socket,
  release_lock, Removal, removed, absent, refused, Ending, serve_error, serve_closed, signal,
  idle_timeout, Outcomes, RunError, store_error, reap_error, scheduler_error, run,
}

-- What a process has: the lock, the socket file and the listener behind it, the store, orphans
-- reaped, the scheduler's goroutine, its counter seeded, the server accepting requests.
pub record Held : Type 0 where
  pub lock : Bool
  pub file : Bool
  pub private : Bool
  pub listener : Bool
  pub store : Bool
  pub reaped : Bool
  pub scheduler : Bool
  pub ready : Bool
  pub serving : Bool

abbrev pub nothing : Held
nothing = record {
  lock = false;
  file = false;
  private = false;
  listener = false;
  store = false;
  reaped = false;
  scheduler = false;
  ready = false;
  serving = false;
}

-- What a step does to them, wherever it is taken.
unfoldable pub does : Effect → Held → Held
does take_lock h = record h { lock = true }
does write_pid h = h
does remove_stale h = record h { file = false }
does listen h = record h { file = true; listener = true }
does restrict h = record h { private = true }
does close_listener h = record h { file = false; listener = false }
does open_store h = record h { store = true }
does reap h = record h { reaped = true }
does start_scheduler h = record h { scheduler = true }
does await_ready h = record h { ready = true }
does serve h = record h { serving = true }
does stop_serving h = record h { serving = false; listener = false; file = false }
does stop_scheduler h = record h { scheduler = false; ready = false }
does close_store h = record h { store = false; reaped = false }
does remove_socket h = record h { file = false; private = false }
does release_lock h = record h { lock = false }

-- Where a step is safe: all happens under the lock; the socket file is removed when no server of
-- this process stands behind it; the scheduler starts after reaping; requests are served on a
-- private socket, once the scheduler is ready; the scheduler outlives the server, the store the
-- scheduler, and the lock the socket file.
unfoldable pub is_safe : Effect → Held → Bool
is_safe take_lock h = not h.lock
is_safe write_pid h = h.lock
is_safe remove_stale h = h.lock && not h.listener
is_safe listen h = h.lock && not h.file && not h.listener
is_safe restrict h = h.listener
is_safe close_listener h = h.listener
is_safe open_store h = h.lock && not h.store
is_safe reap h = h.store && not h.scheduler
is_safe start_scheduler h = h.store && h.reaped && not h.scheduler
is_safe await_ready h = h.scheduler
is_safe serve h = h.listener && h.private && h.scheduler && h.ready
is_safe stop_serving h = h.serving
is_safe stop_scheduler h = h.scheduler && not h.serving
is_safe close_store h = h.store && not h.scheduler
is_safe remove_socket h = h.lock && not h.serving
is_safe release_lock h = h.lock && not h.file && not h.store && not h.scheduler && not h.serving

-- A step where it is safe, and `none` where it is not.
unfoldable pub allowed : Effect → Held → Option Held
unfolding is_safe does
allowed e h = if is_safe e h then some (does e h) else none

abbrev pub and_allowed : Option Held → (Held → Option Held) → Option Held
and_allowed none k = none
and_allowed (some h) k = k h

unfoldable pub allowed_all : List Effect → Held → Option Held
allowed_all [] h = some h
allowed_all (e ∷ es) h = and_allowed (allowed e h) (allowed_all es)

-- Run returns with its listener open.
unfoldable pub leaves_listener : Result RunError (Unit {0}) → Bool
leaves_listener (err store_error) = true
leaves_listener (err reap_error) = true
leaves_listener (err scheduler_error) = true
leaves_listener _ = false

-- The steps of a run are safe in their order, and leave nothing but perhaps the listener.
abbrev pub Leaves : Outcomes → Type 0
Leaves o =
    allowed_all (run o).0 nothing ≡ some (record nothing { listener = leaves_listener (run o).1 })

abbrev outcomes :
    Bool
    → Result LockError (Unit {0})
    → ℤ × Bool
    → Bool
    → Removal
    → Bool
    → Bool
    → Bool
    → Bool
    → Bool
    → Ending
    → Outcomes
outcomes dir lock holder pid stale listens restricts opens reaps ready ending = record {
  makes_dir = dir;
  lock = lock;
  holder = holder;
  writes_pid = pid;
  removes_stale = stale;
  listens = listens;
  restricts = restricts;
  opens_store = opens;
  reaps = reaps;
  gets_ready = ready;
  ending = ending;
}

served-Leaves :
    (h : ℤ × Bool) (ending : Ending)
    → Leaves (outcomes true (ok tt) h true removed true true true true true ending)
unfolding run allowed is_safe does allowed_all leaves_listener
served-Leaves h serve_error = refl
served-Leaves h serve_closed = refl
served-Leaves h signal = refl
served-Leaves h idle_timeout = refl

socket-Leaves :
    (h : ℤ × Bool) (listens restricts opens reaps ready : Bool) (ending : Ending)
    → Leaves (outcomes true (ok tt) h true removed listens restricts opens reaps ready ending)
unfolding run allowed is_safe does allowed_all leaves_listener
socket-Leaves h false r o e d x = refl
socket-Leaves h true false o e d x = refl
socket-Leaves h true true false e d x = refl
socket-Leaves h true true true false d x = refl
socket-Leaves h true true true true false x = refl
socket-Leaves h true true true true true x = served-Leaves h x

outcomes-Leaves :
    (dir : Bool) (lock : Result LockError (Unit {0})) (h : ℤ × Bool) (pid : Bool) (stale : Removal)
    (listens restricts opens reaps ready : Bool) (ending : Ending)
    → Leaves (outcomes dir lock h pid stale listens restricts opens reaps ready ending)
unfolding run allowed is_safe does allowed_all leaves_listener
outcomes-Leaves false l h p s n r o e d x = refl
outcomes-Leaves true (err open_failed) h p s n r o e d x = refl
outcomes-Leaves true (err locked) h p s n r o e d x = refl
outcomes-Leaves true (err flock_failed) h p s n r o e d x = refl
outcomes-Leaves true (err timed_out) h p s n r o e d x = refl
outcomes-Leaves true (ok u) h false s n r o e d x = refl
outcomes-Leaves true (ok u) h true refused n r o e d x = refl
outcomes-Leaves true (ok u) h true removed n r o e d x = socket-Leaves h n r o e d x
outcomes-Leaves true (ok u) h true absent n r o e d x = socket-Leaves h n r o e d x

-- Whatever its calls answer, Run takes each step when it is safe, and has nothing left of the lock,
-- the socket file, the store, the scheduler and the server when it returns. Its listener is open
-- exactly if opening the store, reaping or starting the scheduler failed.
pub run-Leaves : (o : Outcomes) → Leaves o
run-Leaves o =
    outcomes-Leaves o.makes_dir o.lock o.holder o.writes_pid o.removes_stale o.listens o.restricts
      o.opens_store o.reaps o.gets_ready o.ending
