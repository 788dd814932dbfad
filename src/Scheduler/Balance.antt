-- ===== src/Scheduler/Balance.antt =====
-- The busy counter of internal/scheduler/scheduler.go beside CountActiveDeliveries: resolve and a
-- claim.
use sonata.Prelude.{[], ◌∷◌, List}
use sonata.Store.Eligible.{next_eligible-is_active}
use sonata.Prelude.{arith}
use sonata.Store.Queries.{is_eligible}
use sonata.Prelude.Int.{negsuc}
use sonata.Scheduler.State.{add_active}
use sonata.Store.Types.{Delivery}
use sonata.Prelude.{◌∷◌}
use sonata.Prelude.{some}
use sonata.Store.Queries.{next_eligible}
use sonata.Prelude.{Text}
use sonata.Prelude.{List}
use sonata.Scheduler.Closure.{Closed, dispatch-Closed}
use sonata.Scheduler.Dispatch.{launch, load_actions, dispatch}
use mathlib.Core.Path.{subst}
use sonata.Prelude.{ℕ, ◌+◌, ◌≡◌, true, ok, All}
use sonata.Prelude.Int.{pos_part, neg_part, int_laws}
use sonata.Store.Types.{State, Reason, Store}
use sonata.Store.Deliveries.{has_id, is_active, resolve_delivery, claim_delivery}
use sonata.Store.Queries.{Work, count_active}
use sonata.Store.Soundness.{IsTerminal, IsSound}
use sonata.Store.Preserve.{claims, resolves, perform, perform-IsSound}
use sonata.Store.Counting.{count_active-claim_delivery, count_active-resolve_delivery}
use sonata.Scheduler.State.{ActionInfo, SchedEnv, World}

-- The table is sound, and the counter with `owed` more is the number of active deliveries.
pub record Balance (owed : ℕ) (w : World) : Type 0 where
  pub sound : IsSound w.store.db
  pub count : pos_part w.active + owed ≡ neg_part w.active + count_active w.store.db

-- A store call that failed leaves the balance.
pub failed_call :
    (owed : ℕ) (w : World) (s : Store)
    → s.db ≡ w.store.db
    → Balance owed w
    → Balance owed (record w { store = s })
failed_call owed w s e b = record { sound = rw e b.sound; count = rw e b.count }

weaken_active :
    (action : Text) (now id : ℕ) (ds : List Delivery)
    → All (λ d. has_id id d ≡ true → is_eligible action now d ≡ true) ds
    → All (λ d. has_id id d ≡ true → is_active d ≡ true) ds
weaken_active action now id [] h = tt
weaken_active action now id (d ∷ ds) h =
    ((λ e. let k = h.0 e in ground arith), weaken_active action now id ds h.1)

module _ (env : SchedEnv) (owed now : ℕ) where
  settled-Balance :
      (ai : ActionInfo) (w : World) (work : Work) (state : State) (why : Reason) (s : Store)
      → IsTerminal state
      → next_eligible ai.name now w.store.db ≡ some work
      → resolve_delivery env.store_env work.delivery.id state why now w.store ≡ (ok tt, s)
      → Balance owed w
      → Balance owed (add_active (negsuc 0) (record w { store = s }))
  unfolding perform
  settled-Balance ai w work state why s t n e b =
      let active =
        weaken_active ai.name now work.delivery.id w.store.db.deliveries
          (next_eligible-is_active ai.name now w.store.db work b.sound.unique n) in
      let lower =
        count_active-resolve_delivery env.store_env w.store s work.delivery.id state why now t
          b.sound.unique active e in
      record {
        sound =
            subst (λ x. IsSound x.1.db) e
              (perform-IsSound env.store_env (resolves work.delivery.id state t why now) w.store
                b.sound);
        count = omega (int_laws, lower, b.count);
      }

  launched-Balance :
      (ai : ActionInfo) (w : World) (work : Work) (s : Store)
      → claim_delivery env.store_env work.delivery.id ai.version now w.store ≡ (ok tt, s)
      → Balance owed w
      → Balance owed (launch ai work (record w { store = s }))
  unfolding perform
  launched-Balance ai w work s e b =
      let same =
        count_active-claim_delivery env.store_env w.store s work.delivery.id ai.version now e in
      record {
        sound =
            subst (λ x. IsSound x.1.db) e
              (perform-IsSound env.store_env (claims work.delivery.id ai.version now) w.store
                b.sound);
        count = omega (int_laws, same, b.count);
      }

  pub Balance-Closed : {Q : ActionInfo → Type 0} → Closed env now Q (Balance owed)
  Balance-Closed = record {
    recached = λ w c b. record { sound = b.sound; count = b.count };
    refused = λ w s e b. failed_call owed w s e b;
    settled = λ ai w work state why s q t n e b. settled-Balance ai w work state why s t n e b;
    launched = λ ai w work s q l n e b. launched-Balance ai w work s e b;
  }

-- What the actions are does not matter.
abbrev pub AnyAction : ActionInfo → Type 0
AnyAction ai = Unit

pub any_actions : (ais : List ActionInfo) → All AnyAction ais
any_actions [] = tt
any_actions (ai ∷ ais) = (tt, any_actions ais)

pub dispatch-Balance :
    (env : SchedEnv) (now owed fuel : ℕ) (w w' : World)
    → dispatch env now fuel w ≡ some w'
    → Balance owed w
    → Balance owed w'
dispatch-Balance env now owed fuel w w' e b =
    dispatch-Closed env now AnyAction (Balance owed) (Balance-Closed env owed now) fuel w w'
      (any_actions (load_actions env w)) e b
