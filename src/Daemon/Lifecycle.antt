-- ===== src/Daemon/Lifecycle.antt =====
-- The states of the deliveries along the steps of the daemon, internal/scheduler and internal/api
-- together.
use mathlib.Core.Path.{subst}
use sonata.Prelude.{
  ℕ, suc, ◌≡◌, refl, ap, sym, Bool, true, false, ◌||◌, Option, none, some, List, [], ◌∷◌, Text,
  codes, same, is_empty, All, arith, Result, ok, err, Bool-cases, inl, inr,
}
use sonata.Store.Types.{Reason, action_disabled, Message, Delivery, Db, Store, StoreError}
use sonata.Store.Deliveries.{has_id, waiting}
use sonata.Store.Queries.{is_eligible}
use sonata.Store.Eligible.{next_eligible-is_active}
use sonata.Store.Soundness.{IsSound}
use sonata.Store.Preserve.{
  claims, resolves, sets_pgid, fails, replays, cancels, completes, appends, perform,
}
use sonata.Store.Lifecycle.Refinement.{Evolves, unchanged, keeps, perform-Evolves}
use sonata.Scheduler.State.{Launch, SchedEnv, World}
use sonata.Scheduler.Closure.{Closed, dispatch-Closed}
use sonata.Scheduler.Balance.{Balance, Balance-Closed, AnyAction, any_actions}
use sonata.Scheduler.Dispatch.{load_actions}
use sonata.Scheduler.Headers.{build_outputs}
use sonata.Scheduler.Apply.{
  outputs_of, after_complete, after_fail, exhausted, retry_gate, record_outcome, apply,
  after_cancel, handle_ctrl, work_added, seed,
}
use sonata.Api.{SendMessageRequest, ingress, sent, message_send, replayed_reply, delivery_replay}
use sonata.Daemon.Steps.{
  Daemon, sum, Step, dispatching, applying, cancelling, starting, sending, replaying, announcing,
  registering, enabling, Reach, here, next,
}
use sonata.Daemon.Busy.{started, Balanced, Reach-Balanced, seed-Balanced}
use sonata.Daemon.Registry.{apply_action-SameRows, enable_action-SameRows}

weaken_waiting :
    (action : Text) (now id : ℕ) (ds : List Delivery)
    → All (λ d. has_id id d ≡ true → is_eligible action now d ≡ true) ds
    → All (λ d. has_id id d ≡ true → waiting d ≡ true) ds
weaken_waiting action now id [] h = tt
weaken_waiting action now id (d ∷ ds) h =
    ((λ e. let k = h.0 e in ground arith), weaken_waiting action now id ds h.1)

module _ (env : SchedEnv) (from : Store) where
  abbrev EvolvesTo : World → Type 0
  EvolvesTo w = Evolves env.store_env from w.store

  abbrev Both : ℕ → World → Type 0
  Both owed w = Balance owed w × EvolvesTo w

  Both-Closed : (owed now : ℕ) → Closed env now AnyAction (Both owed)
  unfolding perform
  Both-Closed owed now =
      let base = Balance-Closed env owed now in
      record {
        recached = λ w c b. (base.recached w c b.0, b.1);
        refused =
            λ w s e b. (base.refused w s e b.0, keeps b.1 (ap (λ (db : Db). db.deliveries) e));
        settled = λ ai w work state why s q t n e b. (
          base.settled ai w work state why s q t n e b.0,
          subst (λ x. Evolves env.store_env from x.1) e
              (perform-Evolves env.store_env from (resolves work.delivery.id state t why now)
                w.store
                (weaken_waiting ai.name now work.delivery.id w.store.db.deliveries
                  (next_eligible-is_active ai.name now w.store.db work b.0.sound.unique n))
                b.1),
        );
        launched = λ ai w work s q l n e b. (
          base.launched ai w work s q l n e b.0,
          subst (λ x. Evolves env.store_env from x.1) e
              (perform-Evolves env.store_env from (claims work.delivery.id ai.version now) w.store
                tt b.1),
        );
      }

  after_complete-store :
      (r : Result StoreError ℕ × Store) (w : World) → (after_complete r w).store ≡ r.1
  unfolding after_complete
  after_complete-store (ok n, s) w = refl
  after_complete-store (err e, s) w = refl

  after_fail-store :
      (b : Bool) (r : Result StoreError (Unit {0}) × Store) (w : World)
      → (after_fail b r w).store ≡ r.1
  unfolding after_fail
  after_fail-store true (ok u, s) w = refl
  after_fail-store false (ok u, s) w = refl
  after_fail-store b (err e, s) w = refl

  after_cancel-store :
      (r : Result StoreError ℕ × Store) (w : World) → (after_cancel r w).1.store ≡ r.1
  unfolding after_cancel
  after_cancel-store (ok n, s) w = refl
  after_cancel-store (err e, s) w = refl

  build_outputs-deliveries :
      (m : Message) (queue action : Text) (version now : ℕ) (lines : List Text) (db : Db)
      → (build_outputs m queue action version now lines db).1.deliveries ≡ db.deliveries
  unfolding build_outputs
  build_outputs-deliveries m q a v now [] db = refl
  build_outputs-deliveries m q a v now (line ∷ lines) db =
      build_outputs-deliveries m q a v now lines (record db { next_id = suc db.next_id })

  outputs_of-deliveries :
      (r : Launch) (lines : List Text) (now : ℕ) (db : Db)
      → (outputs_of r lines now db).1.deliveries ≡ db.deliveries
  unfolding outputs_of
  outputs_of-deliveries r lines now db = elim (Bool-cases (is_empty r.action.def.output)) [
    | inl e ↦ rw e refl
    | inr e ↦ rw e (build_outputs-deliveries _ _ _ _ now lines db)
  ]

  record_outcome-Evolves :
      (r : Launch) (tail : Text) (now jitter : ℕ) (o : Result Reason (List Text)) (w : World)
      → EvolvesTo w
      → EvolvesTo (record_outcome env r tail now jitter o w)
  unfolding record_outcome perform
  record_outcome-Evolves r tail now jitter (ok lines) w h =
      let (outputs, db) = outputs_of r lines now w.store.db in
      let id = r.work.delivery.id in
      subst (Evolves env.store_env from) (sym (after_complete-store _ _)) (
        perform-Evolves env.store_env from (completes id tail outputs now)
          (record w.store { db = db }) tt (keeps h (outputs_of-deliveries r lines now w.store.db)))
  record_outcome-Evolves r tail now jitter (err why) w h =
      subst (Evolves env.store_env from) (sym (after_fail-store (exhausted r) _ w)) (
        perform-Evolves env.store_env from
          (fails r.work.delivery.id (exhausted r) (retry_gate env r now jitter) why tail now)
          w.store tt h)

  sent-store : (m : Message) (r : Result StoreError ℕ × Store) → (sent m r).store ≡ r.1
  unfolding sent
  sent-store m (ok n, s) = refl
  sent-store m (err e, s) = refl

  message_send-Evolves :
      (req : SendMessageRequest) (now : ℕ) (w : World)
      → EvolvesTo w
      → Evolves env.store_env from (message_send env.store_env env.valid_json req now w.store).store
  unfolding message_send ingress perform
  message_send-Evolves req now w h = elim (Bool-cases (is_empty req.queue)) [
    | inl e ↦ rw e h
    | inr e ↦ rw e (elim (Bool-cases (is_empty req.payload || same req.payload (codes "null"))) [
      | inl f ↦ rw f h
      | inr f ↦ rw f (elim (Bool-cases (env.valid_json req.payload)) [
        | inl g ↦ rw g (
            subst (Evolves env.store_env from) (sym (sent-store _ _)) (
              perform-Evolves env.store_env from (appends (ingress req now w.store.db).0)
                (record w.store { db = (ingress req now w.store.db).1 }) tt (keeps h refl)))
        | inr g ↦ rw g h
      ])
    ])
  ]

  replayed-store : (r : Result StoreError Delivery × Store) → (replayed_reply r).store ≡ r.1
  unfolding replayed_reply
  replayed-store (ok d, s) = refl
  replayed-store (err e, s) = refl

  delivery_replay-Evolves :
      (id : Option ℕ) (w : World)
      → EvolvesTo w
      → Evolves env.store_env from (delivery_replay env.store_env id w.store).store
  unfolding delivery_replay perform
  delivery_replay-Evolves none w h = h
  delivery_replay-Evolves (some id) w h =
      subst (Evolves env.store_env from) (sym (replayed-store _))
        (perform-Evolves env.store_env from (replays id) w.store tt h)

  Step-Evolves : {d e : Daemon} → Step env d e → Balanced d → EvolvesTo d.world → EvolvesTo e.world
  unfolding apply handle_ctrl perform work_added
  Step-Evolves {d} (dispatching now fuel w e) b h =
      (dispatch-Closed env now AnyAction (Both (sum d.owed)) (Both-Closed (sum d.owed) now) fuel
        d.world w (any_actions (load_actions env d.world)) e (b, h)).1
  Step-Evolves {d} (applying r res now jitter) b h =
      record_outcome-Evolves r res.stderr_tail now jitter _ _ h
  Step-Evolves {d} (cancelling action now) b h =
      subst (Evolves env.store_env from) (sym (after_cancel-store _ d.world))
        (perform-Evolves env.store_env from (cancels action action_disabled now) d.world.store tt h)
  Step-Evolves {d} (starting id pgid) b h =
      perform-Evolves env.store_env from (sets_pgid id pgid) d.world.store tt h
  Step-Evolves {d} (sending req now) b h = message_send-Evolves req now d.world h
  Step-Evolves {d} (replaying id) b h = delivery_replay-Evolves id d.world h
  Step-Evolves {d} (announcing before n after e) b h = h
  Step-Evolves {d} (registering name definition now) b h =
      keeps h (apply_action-SameRows env.store_env name definition now d.world.store).0
  Step-Evolves {d} (enabling name enabled) b h =
      keeps h (enable_action-SameRows env.store_env name enabled d.world.store).0

-- Whatever steps the daemon takes from its start on a sound database, the deliveries table changes
-- only by the writes of the store, one after the other, and each write takes every delivery at most
-- one edge of the state machine further, keeps it in its place under its key, and adds only
-- deliveries that are pending.
pub Reach-Evolves :
    (env : SchedEnv) (w : World) (d : Daemon)
    → IsSound w.store.db
    → Reach env (started w) d
    → Evolves env.store_env w.store d.world.store
unfolding seed
Reach-Evolves env w d s here = unchanged
Reach-Evolves env w d s (next r step) =
    Step-Evolves env w.store step (Reach-Balanced env r (seed-Balanced w s))
      (Reach-Evolves env w _ s r)
