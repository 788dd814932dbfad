-- ===== src/Examples/Serving.antt =====
-- The process of the daemon: its idle tracker, its lock and its start, and the wakeups of its loop.
use sonata.Store.Messages.{
  append_message, append_one, insert_message, materialize_deliveries, subscribers, subscribes,
  insert_pending, insert_delivery,
}
use sonata.Store.Types.{write, settle}
use sonata.Store.Actions.{list_actions}
use sonata.Prelude.{same, is_empty, text_ltb, codes}
use sonata.Prelude.Sorting.{insert_sorted}
use sonata.Prelude.{codes}
use sonata.Scheduler.Wakeup
use sonata.Scheduler.Wakeup.{
  Loop, dispatching, selecting, nudge, begin_dispatch, commits, nudges, selects, Reach-wakes,
}
use sonata.Daemon.Ensure.{
  Caller, arriving, probing, starting, returned, Startup, acquires, spawns, serves, readies, finds,
}
use sonata.Daemon.Ensure
use sonata.Daemon.Ensure.Phases.{holds_lock, has_started, Names}
use sonata.Daemon.Ensure.Single.{arriving_callers, Reach-once}
use sonata.Prelude.{
  count, All, ℕ, suc, ◌+◌, ◌*◌, ◌≤◌, ◌≡◌, refl, true, false, some, List, [], ◌∷◌, ok, if◌then◌else◌,
  ◌==◌, arith,
}
use sonata.Store.Queries.{count_active}
use sonata.Daemon.Steps.{Daemon, sum, handled, sending, here, next}
use sonata.Daemon.Idle.{probe}
use sonata.Scheduler.State.{busy}
use sonata.Scheduler.Apply.{seed}
use sonata.Api.{SendMessageRequest, ingress, stamped, set_header, sent, message_send}
use sonata.Daemon.Busy.{started}
use sonata.Daemon.Idle.{Event, touched, ticked}
use sonata.Daemon.Idle.Exit.{probe-idle}
use sonata.Daemon.Lock.{Attempts, taken, would_block, pause, acquire_wait}
use sonata.Examples.Fixtures.{sched_env, fresh, fresh-IsSound, store_env, orders}

abbrev events : List Event
events = touched 3 ∷ ticked 8 false ∷ ticked 14 true ∷ ticked 30 false ∷ []

-- A message that is sent between the two loads of the probe.
abbrev request : SendMessageRequest
request = record { queue = orders; payload = codes "{}"; headers = [] }

abbrev after_send : Daemon
after_send =
    handled (message_send store_env sched_env.valid_json request 7 fresh.store) (started fresh)

after_send_is_active :
    (probe 0 (busy after_send.world) ≡ false)
    × (count_active after_send.world.store.db ≡ 1)
    × (after_send.owed ≡ 1 ∷ [])
unfolding probe busy seed count_active message_send ingress append_message append_one write settle
    insert_message materialize_deliveries subscribers subscribes insert_pending insert_delivery
    list_actions same is_empty stamped set_header text_ltb sent insert_sorted
after_send_is_active = (refl, refl, refl)

probe-idle_example :
    (◌≡◌ {A = ℕ} 0 0)
    × (◌≡◌ {A = List ℕ} [] [])
    × (count_active after_send.world.store.db ≤ sum after_send.owed)
unfolding seed
probe-idle_example =
    probe-idle sched_env fresh (started fresh) after_send 0 fresh-IsSound here
      (next here (sending request 7)) (omega arith) after_send_is_active.0

-- The lock is held at the first attempt and free at the second.
abbrev second_try : Attempts
second_try = record {
  opens = λ k. true;
  flocks = λ k. if k == 0 then would_block else taken;
  clock = λ k. pause * k;
}

second_try_takes : acquire_wait second_try 0 50000000 4 ≡ some (ok tt)
unfolding acquire_wait
second_try_takes = refl

second_try_sleeps : (k : ℕ) → pause * k + pause ≤ pause * suc k
second_try_sleeps k = omega arith

-- The first of two callers starts the process 7, and the second finds it.
abbrev both_returned : Startup
both_returned = record {
  locked = false;
  daemon = some 7;
  callers = returned 7 true ∷ returned 7 false ∷ [];
}

startup : Ensure.Reach (arriving_callers 2) both_returned
startup =
    Ensure.next
      (Ensure.next
        (Ensure.next
          (Ensure.next
            (Ensure.next (Ensure.next Ensure.here (acquires [] (arriving ∷ []) refl refl))
              (spawns [] (arriving ∷ []) 7 refl refl))
            (serves [] (arriving ∷ []) 7 refl))
          (readies [] (arriving ∷ []) 7 refl refl))
        (acquires (returned 7 true ∷ []) [] refl refl))
      (finds (returned 7 true ∷ []) [] 7 refl refl)

Reach-once_example :
    (count holds_lock both_returned.callers ≤ 1)
    × All (Names both_returned.daemon) both_returned.callers
    × (count has_started both_returned.callers ≤ 1)
Reach-once_example = Reach-once 2 both_returned startup

-- A handler commits a row while the loop dispatches, nudges, and the loop goes on to its select.
abbrev committed_one : Loop
committed_one = record { phase = dispatching; token = false; owed = 1; unseen = 1 }

abbrev missed_one : Loop
missed_one = record { phase = selecting; token = true; owed = 0; unseen = 1 }

Reach-wakes_example :
    Wakeup.Step missed_one (begin_dispatch false missed_one)
    × ((begin_dispatch false missed_one).unseen ≡ 0)
unfolding nudge
Reach-wakes_example =
    Reach-wakes (Wakeup.next (Wakeup.next (Wakeup.next Wakeup.here commits) nudged) (selects refl))
      refl (omega arith) refl
  where
    nudged : Wakeup.Step committed_one (nudge committed_one)
    nudged = nudges (omega arith)
