-- ===== src/Scheduler/Apply.antt =====
-- internal/scheduler/scheduler.go: recording an outcome, cancelling on disable, arming the timer;
-- and internal/scheduler/reap.go.
use sonata.Prelude.{
  ℕ, ◌+◌, ◌-◌, ◌*◌, Bool, not, Option, none, some, List, [], ◌∷◌, Text, is_empty, Result, ok, err,
  if◌then◌else◌,
}
use sonata.Prelude.Int.{pos, negsuc, ◌-ℤ◌, ltb_ℤ, pos_part}
use sonata.Store.Types.{
  Reason, execution, stdout_line, action_disabled, Message, Delivery, Db, Store, StoreError,
}
use sonata.Store.Deliveries.{fail_delivery, cancel_deliveries, reset_orphan}
use sonata.Store.Messages.{complete_delivery}
use sonata.Store.Queries.{claimed_deliveries, next_retry_at, count_active}
use sonata.Scheduler.Config.{second}
use sonata.Scheduler.Backoff.{backoff}
use sonata.Scheduler.Ndjson.{parse_ndjson}
use sonata.Scheduler.Headers.{build_outputs}
use sonata.Scheduler.State.{Launch, ExecResult, SchedEnv, World, add_running, add_active}

unfoldable pub of_lines : Result ℕ (List Text) → Result Reason (List Text)
of_lines (ok lines) = ok lines
of_lines (err i) = err (stdout_line i)

-- The lines of an execution that succeeded, or why it failed.
unfoldable pub outcome : (Text → Bool) → Option Text → Text → Result Reason (List Text)
unfolding of_lines
outcome valid (some e) stdout = err (execution e)
outcome valid none stdout = of_lines (parse_ndjson valid stdout)

-- The messages to emit: none without an output queue.
unfoldable pub outputs_of : Launch → List Text → ℕ → Db → List Message × Db
outputs_of r lines now db =
    if is_empty r.action.def.output
    then ([], db)
    else build_outputs r.work.message r.action.def.output r.action.name r.action.version now lines
        db

unfoldable pub after_complete : Result StoreError ℕ × Store → World → World
after_complete (ok created, s) w = add_active (pos created -ℤ pos 1) (record w { store = s })
after_complete (err e, s) w = record w { store = s }

unfoldable pub after_fail : Bool → Result StoreError (Unit {0}) × Store → World → World
after_fail is_dead (ok u, s) w =
    if is_dead then add_active (negsuc 0) (record w { store = s }) else record w { store = s }
after_fail is_dead (err e, s) w = record w { store = s }

-- `d.Attempt >= r.action.maxAttempts`.
abbrev pub exhausted : Launch → Bool
exhausted r = not (ltb_ℤ (pos r.work.delivery.attempt) r.action.max_attempts)

-- The gate of the next attempt; `jitter` is the draw of rand.Float64.
unfoldable pub retry_gate : SchedEnv → Launch → ℕ → ℕ → ℕ
unfolding backoff
retry_gate env r now jitter =
    now
    + backoff (pos_part env.config.backoff_base) (pos_part env.config.backoff_cap)
        r.work.delivery.attempt jitter

unfoldable pub record_outcome :
    SchedEnv → Launch → Text → ℕ → ℕ → Result Reason (List Text) → World → World
unfolding after_complete after_fail outputs_of
record_outcome env r tail now jitter (ok lines) w =
    let (outputs, db) = outputs_of r lines now w.store.db in
    let s : Store = record w.store { db = db } in
    after_complete (complete_delivery env.store_env r.work.delivery.id tail outputs now s)
      (record w { store = s })
record_outcome env r tail now jitter (err reason) w =
    after_fail (exhausted r)
      (fail_delivery env.store_env r.work.delivery.id (exhausted r) (retry_gate env r now jitter)
        reason tail now w.store)
      w

-- apply.
unfoldable pub apply : SchedEnv → Launch → ExecResult → ℕ → ℕ → World → World
unfolding record_outcome outcome
apply env r res now jitter w =
    record_outcome env r res.stderr_tail now jitter (outcome env.valid_json res.error res.stdout)
      (record w { inflight = add_running r.action.name (negsuc 0) w.inflight })

unfoldable pub after_cancel : Result StoreError ℕ × Store → World → Result StoreError ℕ × World
after_cancel (ok n, s) w = (ok n, add_active (pos 0 -ℤ pos n) (record w { store = s }))
after_cancel (err e, s) w = (err e, record w { store = s })

-- handleCtrl: the reply, and the new state.
unfoldable pub handle_ctrl : SchedEnv → Text → ℕ → World → Result StoreError ℕ × World
unfolding after_cancel
handle_ctrl env action now w =
    after_cancel (cancel_deliveries env.store_env action action_disabled now w.store) w

-- An hour.
abbrev pub idle_timer_interval : ℕ
idle_timer_interval = 3600 * second

-- armTimer: what the timer is set to.
unfoldable pub arm_timer : ℕ → Db → ℕ
arm_timer now db = elim (next_retry_at db) [ none ↦ idle_timer_interval | some gate ↦ gate - now ]

-- WorkAdded: its effect on the counter.
unfoldable pub work_added : ℕ → World → World
work_added n w = add_active (pos n) w

-- The start of Run: the counter is seeded from the database.
unfoldable pub seed : World → World
seed w = record w { active = pos (count_active w.store.db) }

-- The process groups that ReapOrphans kills.
unfoldable pub killed_groups : List Delivery → List ℕ
killed_groups [] = []
killed_groups (d ∷ ds) =
    let rest = killed_groups ds in elim d.pgid [ none ↦ rest | some g ↦ g ∷ rest ]

unfoldable pub continue_with :
    Result StoreError (Unit {0}) × Store
    → (Store → Result StoreError (Unit {0}) × Store)
    → Result StoreError (Unit {0}) × Store
continue_with (ok u, s) k = k s
continue_with (err e, s) k = (err e, s)

-- The loop of ReapOrphans: a reset that fails ends it. `now` is the clock, read at each reset.
unfoldable pub reset_all :
    SchedEnv → (ℕ → ℕ) → List Delivery → Store → Result StoreError (Unit {0}) × Store
unfolding continue_with
reset_all env now [] s = (ok tt, s)
reset_all env now (d ∷ ds) s =
    continue_with (reset_orphan env.store_env d.id (now s.writes) s) (reset_all env now ds)

unfoldable pub reap_orphans : SchedEnv → (ℕ → ℕ) → Store → Result StoreError (Unit {0}) × Store
unfolding reset_all
reap_orphans env now s = reset_all env now (claimed_deliveries s.db) s
