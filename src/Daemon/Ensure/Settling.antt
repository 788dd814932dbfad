-- ===== src/Daemon/Ensure/Settling.antt =====
-- internal/daemon/ensure.go: which processes one call of EnsureRunning leaves behind.
use sonata.Prelude.{
  Bool, true, false, not, Option, none, some, List, [], ◌∷◌, ◌++◌, Result, ok, err, ◌≡◌, ◌≢◌, refl,
  arith, keep, Bool-cases, inl, inr,
}
use sonata.Prelude.Int.{ℤ, pos, negsuc}
use sonata.Api.Transport.{
  ClientError, unencodable_request, no_daemon, connection_failed, undecodable_response,
  unexpected_status, reported,
}
use sonata.Api.Client.{Health}
use sonata.Daemon.Run.{Removal, removed, absent, refused}
use sonata.Daemon.Spawn.{NotReady, not_released, started, spawn}
use sonata.Daemon.Ensure.Sequence.{
  Action, take_start_lock, remove_stale, release_start_lock, starts, stops, EnsureError, other_pid,
  spawn_error, Ensuring, Ensured, then_act, finally, same_pid, after_ready, after_spawn,
  after_removal, after_probe, after_start_lock, ensure_running,
}

-- The processes that have been started, less those that Stop is called for.
unfoldable pub left_running : List ℤ → List Action → List ℤ
unfolding same_pid
left_running pids [] = pids
left_running pids (starts pid ∷ actions) = left_running (pid ∷ pids) actions
left_running pids (stops pid ∷ actions) =
    left_running (keep (λ other. not (same_pid other pid)) pids) actions
left_running pids (a ∷ actions) = left_running pids actions

-- Which processes a result stands for.
abbrev pub Accounts : Option ℤ → Result EnsureError (Health × Bool) → List ℤ → Type 0
Accounts child (ok (h, true)) left = left ≡ h.pid ∷ []
Accounts child (ok (h, false)) left = left ≡ []
Accounts child (err (other_pid answers pid)) left = (left ≡ pid ∷ []) × (answers ≢ pid)
Accounts child (err (spawn_error not_released)) left =
    (pid : ℤ) × (child ≡ some pid) × (left ≡ pid ∷ [])
Accounts child (err e) left = left ≡ []

same_pid_refl : (p : ℤ) → same_pid p p ≡ true
unfolding same_pid
same_pid_refl (pos n) = ground arith
same_pid_refl (negsuc n) = ground arith

same_pid→eq : (p q : ℤ) → same_pid p q ≡ true → p ≡ q
unfolding same_pid
same_pid→eq (pos m) (pos n) e = ground arith
same_pid→eq (negsuc m) (negsuc n) e = ground arith
same_pid→eq (pos m) (negsuc n) e = cc e
same_pid→eq (negsuc m) (pos n) e = cc e

abbrev pub Settles : Ensuring → List Action → Ensured → Type 0
Settles o before (actions, r) = Accounts o.spawning.starts r (left_running [] (before ++ actions))

after_ready-Settles :
    (o : Ensuring) (pid : ℤ) (r : Result NotReady Health)
    → Settles o (starts pid ∷ []) (after_ready pid o.log r)
unfolding after_ready left_running
after_ready-Settles o pid (err e) = rw (same_pid_refl pid) refl
after_ready-Settles o pid (ok h) = elim (Bool-cases (same_pid h.pid pid)) [
  | inl same_one ↦ rw (same_one, same_pid→eq h.pid pid same_one) refl
  | inr another ↦ rw another (refl, λ e. cc (another, e, same_pid_refl pid))
]

after_spawn-Settles :
    (o : Ensuring) (child : Option ℤ) (releases : Bool)
    → o.spawning.starts ≡ child
    → Settles o [] (after_spawn o (started child releases))
unfolding after_spawn started left_running then_act
after_spawn-Settles o none releases e = refl
after_spawn-Settles o (some pid) true e = after_ready-Settles o pid o.ready
after_spawn-Settles o (some pid) false e = (pid, e, refl)

spawn-Settles : (o : Ensuring) → Settles o [] (after_spawn o (spawn o.spawning))
unfolding spawn after_spawn left_running
spawn-Settles o = elim (Bool-cases o.spawning.finds_binary) [
  | inr lost ↦ rw lost refl
  | inl found ↦ elim (Bool-cases o.spawning.opens_log) [
    | inr shut ↦ rw (found, shut) refl
    | inl opened ↦
        rw (found, opened) (after_spawn-Settles o o.spawning.starts o.spawning.releases refl)
  ]
]

after_removal-Settles : (o : Ensuring) (r : Removal) → Settles o [] (after_removal o r)
unfolding after_removal left_running then_act
after_removal-Settles o refused = refl
after_removal-Settles o removed = spawn-Settles o
after_removal-Settles o absent = spawn-Settles o

after_probe-Settles :
    (o : Ensuring) (r : Result ClientError Health) → Settles o [] (after_probe o r)
unfolding after_probe left_running
after_probe-Settles o (ok h) = refl
after_probe-Settles o (err no_daemon) = after_removal-Settles o o.remove
after_probe-Settles o (err unencodable_request) = refl
after_probe-Settles o (err connection_failed) = refl
after_probe-Settles o (err undecodable_response) = refl
after_probe-Settles o (err (unexpected_status n)) = refl
after_probe-Settles o (err (reported c m)) = refl

-- The start lock says nothing of the processes.
left_running-release :
    (pids : List ℤ) (actions : List Action)
    → left_running pids (actions ++ release_start_lock ∷ []) ≡ left_running pids actions
unfolding left_running
left_running-release pids [] = refl
left_running-release pids (take_start_lock ∷ actions) = left_running-release pids actions
left_running-release pids (remove_stale ∷ actions) = left_running-release pids actions
left_running-release pids (release_start_lock ∷ actions) = left_running-release pids actions
left_running-release pids (starts p ∷ actions) = left_running-release (p ∷ pids) actions
left_running-release pids (stops p ∷ actions) =
    left_running-release (keep (λ other. not (same_pid other p)) pids) actions

finally-Settles :
    (o : Ensuring) (e : Ensured)
    → Settles o [] e
    → Settles o [] (then_act take_start_lock (finally release_start_lock e))
unfolding then_act finally left_running
finally-Settles o (actions, r) h = rw (left_running-release [] actions) h

-- Whatever its calls answer, EnsureRunning leaves no process of its own behind but the one that it
-- returns as started by it, the child of a Spawn that fails after the start, and a child in whose
-- place another process answers: a child that does not become ready is stopped, and where a daemon
-- answers at once none is started.
pub ensure_running-Settles : (o : Ensuring) → Settles o [] (ensure_running o)
unfolding ensure_running after_start_lock left_running
ensure_running-Settles o = elim (Bool-cases o.makes_dir) [
  | inr down ↦ rw down refl
  | inl made ↦ rw made (elim o.lock as (λ l. Settles o [] (after_start_lock o l)) [
    | ok u ↦ finally-Settles o (after_probe o o.probe) (after_probe-Settles o o.probe)
    | err e ↦ refl
  ])
]
