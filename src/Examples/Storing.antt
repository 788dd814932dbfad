-- ===== src/Examples/Storing.antt =====
-- The theorems of the store and of the scheduler's decisions, on one row.
use sonata.Prelude.{◌≤◌, ◌+◌, keep}
use sonata.Prelude.{none}
use Prim.Native.Nat.{min}
use sonata.Prelude.{◌≡◌, ◌↔◌, ◌+◌, ◌*◌, ◌^◌, ◌-◌, refl, true, false, [], ◌∷◌, leb, arith, inr}
use sonata.Prelude.Int.{pos}
use sonata.Store.Types.{dead, Message, Delivery, Store}
use sonata.Store.Timestamp.{stamp_leb, second}
use sonata.Store.Timestamp.Order.{stamp_leb-order}
use sonata.Store.Deliveries.{claim_row}
use sonata.Store.Queries.{is_eligible, next_eligible}
use sonata.Store.Soundness.{IsSound}
use sonata.Store.Preserve.{claims, perform, perform-IsSound}
use sonata.Store.Eligible.{Oldest, next_eligible-Oldest}
use sonata.Scheduler.Backoff.{delay, backoff}
use sonata.Scheduler.Backoff.Bounds.{backoff-min}
use sonata.Prelude.{same, is_empty}
use sonata.Scheduler.Headers.{input_index, index_of, message_hops, read_hops, is_hops}
use sonata.Workflow.Cel.{
  get, cached, compile, compile_from, compile_typed, new_activation, eval_filter,
}
use sonata.Scheduler.Vet.{run, verdict, activation, filter_at}
use sonata.Scheduler.Verdict.{MayRun, verdict-MayRun}
use sonata.Store.Paging.{follow, below, list_deliveries-pages}
use sonata.Store.Queries.{DeliveryListOptions, list_deliveries, delivery_matches}
use sonata.Examples.Fixtures.{
  sched_env, store_env, one_waiting, one_waiting-IsSound, order, ship, waiting_order, ship_info,
}

abbrev store : Store
store = record { db = one_waiting; writes = 0 }

-- The store with its row in another state.
abbrev store_with : Delivery → Store
store_with d = record { db = record one_waiting { deliveries = d ∷ [] }; writes = 0 }

abbrev running_order : Delivery
running_order = claim_row 1 5 waiting_order

perform-IsSound_example : IsSound (perform store_env (claims 3 1 8) store).db
perform-IsSound_example = perform-IsSound store_env (claims 3 1 8) store one_waiting-IsSound

next_eligible-Oldest_example :
    Oldest (is_eligible ship 8) (order ∷ []) (waiting_order ∷ []) (next_eligible ship 8 one_waiting)
next_eligible-Oldest_example = next_eligible-Oldest ship 8 one_waiting

backoff-min_example :
    (delay (1953125 * 2 ^ 9) 60000000000 70 ≡ min (1953125 * 2 ^ 9 * 2 ^ (70 - 1)) 60000000000)
    × (8 * min (1953125 * 2 ^ 9 * 2 ^ (70 - 1)) 60000000000
        ≤ 10 * backoff (1953125 * 2 ^ 9) 60000000000 70 5 + 9)
    × (10 * backoff (1953125 * 2 ^ 9) 60000000000 70 5
        ≤ 12 * min (1953125 * 2 ^ 9 * 2 ^ (70 - 1)) 60000000000)
backoff-min_example =
    backoff-min 1953125 9 60000000000 70 5 (omega arith) (omega arith) (omega arith) (omega arith)

-- The store with its row dead.
abbrev dead_store : Store
dead_store = store_with (record running_order { state = dead })

-- A message on the same queue, under a new id.
abbrev second_order : Message
second_order = record order { id = 4 }

abbrev store_five : Store
store_five = record store { db = record one_waiting { next_id = 5 } }

-- The store with its row running.
abbrev running_store : Store
running_store = record { db = record store_five.db { deliveries = running_order ∷ [] }; writes = 0 }

-- A completion that the full disk refuses leaves the claim and emits nothing.
order_runs : MayRun sched_env ship_info order []
unfolding input_index index_of same message_hops read_hops is_hops get cached compile compile_from
    compile_typed new_activation activation eval_filter filter_at is_empty
order_runs = record {
  index = 0;
  hops = pos 0;
  compiled = _;
  input = _;
  subscribed = refl;
  readable = refl;
  below = refl;
  compiles = refl;
  decodes = refl;
  accepts = refl;
}

verdict-MayRun_example :
    ((verdict sched_env ship_info order []).0 ≡ run) ↔ MayRun sched_env ship_info order []
verdict-MayRun_example = verdict-MayRun sched_env ship_info order []

stamp_leb-order_example :
    (stamp_leb (5 * second) (5 * second + 500000000) ≡ false)
    × (stamp_leb (5 * second + 500000000) (5 * second) ≡ true)
    × (stamp_leb 1500000001 1500000003 ≡ leb 1500000001 1500000003)
stamp_leb-order_example =
    stamp_leb-order 5 500000000 1500000001 1500000003 (omega arith) (omega arith)
      (inr ((λ e. omega (arith, e)), (λ e. omega (arith, e))))

-- Pages of one row each.
abbrev one_by_one : DeliveryListOptions
one_by_one = record {
  action = [];
  state = none;
  message_id = none;
  limit = pos 1;
  before_id = none;
}

list_deliveries-pages_example :
    follow
      (λ (d : Delivery). d.id)
      (λ c. list_deliveries (record one_by_one { before_id = c }) one_waiting)
      2
      none
    ≡ below
        (λ (d : Delivery). d.id)
        (keep (delivery_matches one_by_one) one_waiting.deliveries)
        none
list_deliveries-pages_example =
    list_deliveries-pages one_by_one one_waiting 2 one_waiting-IsSound (omega arith)
