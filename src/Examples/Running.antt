-- ===== src/Examples/Running.antt =====
-- A daemon that is sent a message.
use sonata.Scheduler.Drain.{Arrival, drain}
use sonata.Daemon.Draining.{drain-Reach}
use sonata.Scheduler.State.{total}
use sonata.Store.Lifecycle.Refinement.{Evolves}
use sonata.Daemon.Lifecycle.{Reach-Evolves}
use sonata.Prelude.{false}
use sonata.Scheduler.Unloaded.{rows_of, dispatch-rows_of}
use sonata.Examples.Fixtures.{ship_row}
use sonata.Scheduler.Capacity.{Within, dispatch-Within}
use sonata.Store.Types.{Message, number}
use sonata.Scheduler.Vet.{run}
use sonata.Workflow.Cel.{Cache}
use sonata.Prelude.Sorting.{insert_sorted}
use sonata.Scheduler.State.{running_of, add_running}
use sonata.Scheduler.Apply.{seed}
use sonata.Api.{ingress, stamped, set_header, sent}
use sonata.Store.Messages.{
  append_message, append_one, insert_message, materialize_deliveries, subscribers, subscribes,
  insert_pending, insert_delivery,
}
use sonata.Store.Types.{write, settle}
use sonata.Store.Actions.{list_actions}
use sonata.Scheduler.Dispatch.{
  load_actions, decode_rows, info, with_instructions, push, dispatch_all, action_round, after_round,
  round, eligible_round, next_work, vetted_round, claimed_round, and_then, decode_row,
}
use sonata.Scheduler.Vet.{
  vet, verdict, vetted, resolve, filter_at, of_filter, of_activation, activation, of_compiled,
  of_hops, of_index,
}
use sonata.Store.Deliveries.{claim_delivery, exec_update}
use sonata.Store.Queries.{next_eligible, first_work, joined, earlier, message_of}
use sonata.Workflow.Definition.{is_join, concurrency_or_default}
use sonata.Scheduler.Headers.{input_index, index_of, message_hops, read_hops, is_hops}
use sonata.Workflow.Cel.{
  get, cached, compile, compile_from, new_activation, eval_filter, compile_typed,
}
use sonata.Prelude.{same, is_empty, text_ltb}
use sonata.Prelude.Int.{◌+ℤ◌, ◌-ℤ◌}
use sonata.Examples.Fixtures.{ship}
use sonata.Prelude.{ℕ, ◌≡◌, ◌≢◌, ◌≤◌, ◌+◌, refl, true, none, some, [], ◌∷◌, codes, ltb, arith}
use sonata.Prelude.Int.{pos, pos_part, neg_part}
use sonata.Store.Queries.{count_active}
use sonata.Store.Soundness.{IsSound}
use sonata.Scheduler.State.{SchedEnv, World, busy}
use sonata.Scheduler.Dispatch.{dispatch, rounds}
use sonata.Scheduler.Balance.{Balance}
use sonata.Scheduler.Finishing.{dispatch-finishes, rounds-spin}
use sonata.Scheduler.Lowering.{waiting_rows}
use sonata.Scheduler.Apply.{work_added}
use sonata.Api.{SendMessageRequest, message_send}
use sonata.Daemon.Steps.{Daemon, handled, sending, announcing, dispatching, Reach, here, next}
use sonata.Daemon.Busy.{started, Reach-count_active, Reach-busy}
use sonata.Examples.Fixtures.{
  sched_env, store_env, full_disk, fresh, fresh-IsSound, one_waiting-IsSound, one_waiting, order,
  orders, waiting_order, ship_info,
}

abbrev request : SendMessageRequest
request = record { queue = orders; payload = codes "{}"; headers = [] }

abbrev after_send : Daemon
after_send =
    handled (message_send store_env sched_env.valid_json request 7 fresh.store) (started fresh)

abbrev created : ℕ
created = (message_send store_env sched_env.valid_json request 7 fresh.store).announce

abbrev after_announcement : Daemon
after_announcement = record { world = work_added created after_send.world; owed = [] }

-- The state after a dispatch that has launched the delivery.
abbrev after_dispatch : World
after_dispatch = elim (dispatch sched_env 8 5 after_announcement.world) [
  | none ↦ fresh
  | some w ↦ w
]

dispatch_launches :
    (dispatch sched_env 8 5 after_announcement.world ≡ some after_dispatch)
    × (running_of ship after_dispatch.inflight ≡ pos 1)
    × (busy after_dispatch ≡ true)
unfolding dispatch running_of busy work_added seed message_send ingress append_message append_one
    write settle insert_message materialize_deliveries subscribers subscribes insert_pending
    insert_delivery list_actions load_actions decode_rows info with_instructions push dispatch_all
    rounds action_round after_round round eligible_round next_work vetted_round claimed_round vet
    verdict vetted resolve claim_delivery exec_update next_eligible first_work joined earlier
    message_of is_join input_index index_of message_hops read_hops is_hops get cached compile
    compile_from new_activation eval_filter filter_at of_filter of_activation activation of_compiled
    of_hops of_index add_running same is_empty stamped set_header text_ltb ◌+ℤ◌ ◌-ℤ◌ compile_typed
    concurrency_or_default sent and_then decode_row insert_sorted count_active
dispatch_launches = (refl, refl, refl)

daemon : Reach sched_env (started fresh) (record { world = after_dispatch; owed = [] })
unfolding seed
daemon =
    next (next (next here (sending request 7)) (announcing [] created [] refl))
      (dispatching 8 5 after_dispatch dispatch_launches.0)

Reach-busy_example : busy after_dispatch ≡ ltb 0 (count_active after_dispatch.store.db)
Reach-busy_example =
    Reach-busy sched_env fresh (record { world = after_dispatch; owed = [] }) fresh-IsSound daemon
      refl

Reach-count_active_example :
    IsSound after_dispatch.store.db
    × (pos_part after_dispatch.active + 0
        ≡ neg_part after_dispatch.active + count_active after_dispatch.store.db)
Reach-count_active_example =
    Reach-count_active sched_env fresh (record { world = after_dispatch; owed = [] }) fresh-IsSound
      daemon

-- The scheduler with one delivery that waits, on a store of the environment.
abbrev waiting_world : World
waiting_world = record fresh { store = record { db = one_waiting; writes = 0 }; active = pos 1 }

waiting_world-Balance : Balance 0 waiting_world
unfolding count_active
waiting_world-Balance = record { sound = one_waiting-IsSound; count = refl }

dispatch-finishes_example :
    (w' : World) × (dispatch sched_env 8 2 waiting_world ≡ some w')
    × (waiting_rows w' ≤ waiting_rows waiting_world)
dispatch-finishes_example =
    dispatch-finishes sched_env 8 0 2 waiting_world (λ n. refl) waiting_world-Balance (omega arith)

-- The same delivery, over the hop limit, on a full disk.
abbrev far_order : Message
far_order = record order { headers = (codes "hops", number (pos 100)) ∷ [] }

abbrev far_world : World
far_world = record waiting_world {
  store = record { db = record one_waiting { messages = far_order ∷ [] }; writes = 0 };
}

abbrev full_env : SchedEnv
full_env = record sched_env { store_env = full_disk }

far_settles : (cache : Cache) → (verdict full_env ship_info far_order cache).0 ≢ run
unfolding verdict of_index of_hops input_index index_of message_hops read_hops is_hops same
far_settles cache = λ e. cc

rounds-spin_example : rounds full_env ship_info 8 1000 far_world ≡ none
unfolding next_eligible first_work joined earlier message_of running_of is_join same is_empty
rounds-spin_example =
    rounds-spin full_env ship_info (record { delivery = waiting_order; message = far_order }) 8 1000
      far_world (λ n. refl) (λ n. refl) refl refl refl far_settles

dispatch-Within_example : Within ship (pos 1) after_announcement.world after_dispatch
unfolding running_of work_added seed message_send ingress append_message write settle sent same
    is_empty load_actions decode_rows decode_row info with_instructions push list_actions
    insert_sorted concurrency_or_default append_one insert_message materialize_deliveries
    subscribers insert_pending insert_delivery
dispatch-Within_example =
    dispatch-Within sched_env ship (pos 1) 8 5 after_announcement.world after_dispatch
      ((λ e. refl), tt) refl dispatch_launches.0

-- The action of the waiting delivery is disabled.
abbrev disabled_world : World
disabled_world = record waiting_world {
  store = record {
    db = record one_waiting { actions = record ship_row { enabled = false } ∷ [] };
    writes = 0;
  };
}

disabled_world-Balance : Balance 0 disabled_world
unfolding count_active
disabled_world-Balance = record {
  sound = record {
    rows = one_waiting-IsSound.rows;
    unique = one_waiting-IsSound.unique;
    below = one_waiting-IsSound.below;
  };
  count = refl;
}

dispatch-rows_of_example : rows_of ship disabled_world.store ≡ rows_of ship disabled_world.store
unfolding dispatch dispatch_all load_actions decode_rows list_actions insert_sorted same
dispatch-rows_of_example =
    dispatch-rows_of sched_env ship 8 0 2 disabled_world disabled_world tt disabled_world-Balance
      refl

Reach-Evolves_example : Evolves store_env fresh.store after_dispatch.store
Reach-Evolves_example =
    Reach-Evolves sched_env fresh (record { world = after_dispatch; owed = [] }) fresh-IsSound
      daemon

-- One execution in flight when the daemon stops.
abbrev stopping : World
stopping = record waiting_world { inflight = (ship, pos 1) ∷ [] }

abbrev last_arrival : Arrival
last_arrival = record {
  launch = record {
    work = record { delivery = waiting_order; message = order };
    action = ship_info;
  };
  result = record { stdout = []; stderr_tail = []; error = none };
  now = 9;
  jitter = 0;
}

one_in_flight : total stopping.inflight ≡ pos 1
unfolding total
one_in_flight = refl

drain-Reach_example :
    (w : World) × (drain sched_env (last_arrival ∷ []) stopping ≡ some w)
    × (total w.inflight ≡ pos 0)
    × Reach sched_env (record { world = stopping; owed = [] }) (record { world = w; owed = [] })
drain-Reach_example =
    drain-Reach sched_env (last_arrival ∷ []) (record { world = stopping; owed = [] }) one_in_flight
