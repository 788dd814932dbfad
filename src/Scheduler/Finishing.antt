-- ===== src/Scheduler/Finishing.antt =====
-- dispatch of internal/scheduler/scheduler.go: when its loops end, and when they do not.

use sonata.Prelude.{
  ℕ, zero, suc, ◌≤◌, ◌<◌, ◌≡◌, ◌≢◌, refl, true, false, Option, none, some, List, [], ◌∷◌, err,
  arith,
}
use sonata.Prelude.Int.{ltb_ℤ}
use sonata.Store.Types.{write_failed, State, Reason, Store, StoreError, Env, write, settle}
use sonata.Store.Deliveries.{resolve_delivery}
use sonata.Store.Queries.{Work, next_eligible}
use sonata.Store.Writes.{committed}
use sonata.Workflow.Definition.{is_join}
use sonata.Workflow.Cel.{Cache}
use sonata.Scheduler.State.{ActionInfo, SchedEnv, World, running_of}
use sonata.Scheduler.Vet.{Verdict, run, verdict, vetted, vet, resolved, resolve}
use sonata.Scheduler.Dispatch.{
  Round, halt, more, vetted_round, eligible_round, next_work, round, action_round, after_round,
  rounds, and_then, dispatch_all, load_actions, dispatch,
}
use sonata.Scheduler.Balance.{Balance, AnyAction, Balance-Closed}
use sonata.Scheduler.Closure.{InRound, action_round-Closed}
use sonata.Scheduler.Lowering.{waiting_rows, Lowers, action_round-Lowers}

module _ (env : SchedEnv) (now owed : ℕ) (c : (n : ℕ) → env.store_env.commits n ≡ true) where
  -- A world that is balanced, and has no more rows to take than there were.
  Ended : ℕ → Option World → Type 0
  Ended n none = ⊥
  Ended n (some w) = Balance owed w × (waiting_rows w ≤ n)

  after_round-Ended :
      (n : ℕ) (w : World) (r : Round) (again : World → Option World)
      → Lowers w r
      → InRound (Balance owed) r
      → waiting_rows w ≤ n
      → ((w' : World) → Balance owed w' → waiting_rows w' < waiting_rows w → Ended n (again w'))
      → Ended n (after_round r again)
  unfolding after_round Ended
  after_round-Ended n w (halt w') again l b m k = (b, omega arith)
  after_round-Ended n w (more w') again l b m k = k w' b l

  rounds-Ended :
      (ai : ActionInfo) (n fuel : ℕ) (w : World)
      → Balance owed w
      → waiting_rows w < fuel
      → waiting_rows w ≤ n
      → Ended n (rounds env ai now fuel w)
  unfolding rounds
  rounds-Ended ai n zero w b l m = absurd (omega arith)
  rounds-Ended ai n (suc fuel) w b l m =
      after_round-Ended n w (action_round env ai now w) _
        (action_round-Lowers env now owed c ai w b)
        (action_round-Closed env now AnyAction (Balance owed) (Balance-Closed env owed now) ai tt w
          b)
        m (λ w' b' l'. rounds-Ended ai n fuel w' b' (omega arith) (omega arith))

  and_then-Ended :
      (n : ℕ) (o : Option World) (next : World → Option World)
      → Ended n o
      → ((w : World) → Balance owed w → waiting_rows w ≤ n → Ended n (next w))
      → Ended n (and_then o next)
  unfolding and_then Ended
  and_then-Ended n none next h k = absurd h
  and_then-Ended n (some w) next h k = k w h.0 h.1

  dispatch_all-Ended :
      (ais : List ActionInfo) (n fuel : ℕ) (w : World)
      → Balance owed w
      → n < fuel
      → waiting_rows w ≤ n
      → Ended n (dispatch_all env now fuel ais w)
  unfolding dispatch_all Ended
  dispatch_all-Ended [] n fuel w b l m = (b, m)
  dispatch_all-Ended (ai ∷ ais) n fuel w b l m =
      and_then-Ended n (rounds env ai now fuel w) _ (rounds-Ended ai n fuel w b (omega arith) m)
        (λ w' b' m'. dispatch_all-Ended ais n fuel w' b' l m')

  Ended-some :
      (n : ℕ) (o : Option World) → Ended n o → (w : World) × (o ≡ some w) × (waiting_rows w ≤ n)
  unfolding Ended
  Ended-some n none h = absurd h
  Ended-some n (some w) h = (w, refl, h.1)

-- When every write transaction commits, dispatch ends on a balanced scheduler: fuel for one round
-- more than there are pending and failed rows is enough, and there are no more of those rows after.
pub dispatch-finishes :
    (env : SchedEnv) (now owed fuel : ℕ) (w : World)
    → ((n : ℕ) → env.store_env.commits n ≡ true)
    → Balance owed w
    → waiting_rows w < fuel
    → (w' : World) × (dispatch env now fuel w ≡ some w') × (waiting_rows w' ≤ waiting_rows w)
unfolding dispatch
dispatch-finishes env now owed fuel w c b l = Ended-some env now owed c (waiting_rows w) _ (
    dispatch_all-Ended env now owed c (load_actions env w) (waiting_rows w) fuel w b l
      (omega arith))

resolve-fails :
    (env : Env) (s : Store) (id : ℕ) (state : State) (reason : Reason) (now : ℕ)
    → env.commits s.writes ≡ false
    → (e : StoreError) × (resolve_delivery env id state reason now s ≡ (err e, committed s s.db))
unfolding resolve_delivery write settle
resolve-fails env s id state why now c = (write_failed, rw c refl)

-- When no write transaction commits but every read of NextEligible goes through, and the next
-- delivery of an action is one that vet settles, whatever is in the cache of compiled programs, the
-- loop over the action's deliveries takes the same delivery again and again, on any fuel.
pub rounds-spin :
    (env : SchedEnv) (ai : ActionInfo) (work : Work) (now fuel : ℕ) (w : World)
    → ((n : ℕ) → env.store_env.commits n ≡ false)
    → ((n : ℕ) → env.reads ai.name now n ≡ true)
    → is_join ai.def ≡ false
    → ltb_ℤ (running_of ai.name w.inflight) ai.concurrency ≡ true
    → next_eligible ai.name now w.store.db ≡ some work
    → ((cache : Cache) → (verdict env ai work.message cache).0 ≢ run)
    → rounds env ai now fuel w ≡ none
unfolding rounds after_round action_round round eligible_round next_work vetted_round vet vetted
    resolve resolved
rounds-spin env ai work now zero w c g j l e v = refl
rounds-spin env ai work now (suc fuel) w c g j l e v =
    let (state, why, h) = verdict-split _ (v w.cache) in
    let (x, r) =
      resolve-fails env.store_env w.store work.delivery.id state why now (c w.store.writes) in
    rw (j, l, g w.store.writes, e, h, r) (rounds-spin env ai work now fuel _ c g j l e v)
  where
    verdict-split :
        (v : Verdict) → v ≢ run → (state : State) × (why : Reason) × (v ≡ Verdict.settle state why)
    verdict-split run h = absurd (h refl)
    verdict-split (Verdict.settle state why) h = (state, why, refl)
