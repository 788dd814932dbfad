-- ===== src/Examples/Emitting.antt =====
-- The theorems of the outputs, of the compiled programs, and of the start after a crash.
use sonata.Prelude.{ℕ, ◌≡◌, ◌+◌, refl, List, [], ◌∷◌, Text, codes, map, All, ok, count}
use sonata.Prelude.Int.{pos}
use sonata.Store.Types.{claimed, Store}
use sonata.Store.Deliveries.{in_state, claim_row}
use sonata.Store.Queries.{count_active}
use sonata.Workflow.Definition.{Action}
use sonata.Workflow.Cel.{compile, get}
use sonata.Workflow.Cel.Coherence.{Coherent, get-Coherent}
use sonata.Scheduler.Headers.{message_hops, read_hops, is_hops, hops_or_zero, build_outputs}
use sonata.Scheduler.Headers.Lineage.{Continues, build_outputs-Continues}
use sonata.Scheduler.Apply.{reap_orphans}
use sonata.Scheduler.Reaping.{reap_orphans-claimed}
use sonata.Examples.Fixtures.{sched_env, cel, ship, ship_action, order, one_waiting, waiting_order}

abbrev lines : List Text
lines = codes "1" ∷ codes "2" ∷ []

build_outputs-Continues_example :
    let outputs = (build_outputs order (codes "shipped") ship 1 9 lines one_waiting).0 in
    (map (λ o. o.payload) outputs ≡ lines)
    × All (Continues order (pos 0) (codes "shipped") ship 1 4) outputs
unfolding message_hops read_hops is_hops hops_or_zero
build_outputs-Continues_example =
    build_outputs-Continues order (pos 0) (codes "shipped") ship 1 9 lines one_waiting refl

abbrev definition : Text → ℕ → Action
definition name version = ship_action

get-Coherent_example :
    ((get cel ship 1 ship_action []).0 ≡ compile cel ship_action)
    × Coherent cel definition (get cel ship 1 ship_action []).1
get-Coherent_example = get-Coherent cel definition ship 1 [] tt

-- A store whose daemon has died while the delivery was running.
abbrev crashed : Store
crashed = record {
  db = record one_waiting { deliveries = claim_row 1 5 waiting_order ∷ [] };
  writes = 0;
}

reap_orphans-claimed_example :
    let r = reap_orphans sched_env (λ n. 10 + n) crashed in
    (r.0 ≡ ok tt)
    × (count (in_state claimed) r.1.db.deliveries ≡ 0)
    × (count_active r.1.db ≡ count_active crashed.db)
reap_orphans-claimed_example = reap_orphans-claimed sched_env (λ n. 10 + n) (λ n. refl) crashed
