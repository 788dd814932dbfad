-- ===== src/Scheduler/Recording.antt =====
-- The busy counter of internal/scheduler/scheduler.go in apply and handleCtrl.
use mathlib.Core.Path.{subst}
use sonata.Prelude.{
  ℕ, ◌≡◌, refl, Bool, true, false, List, [], ◌∷◌, Text, is_empty, Result, ok, err, arith,
  Bool-cases, inl, inr,
}
use sonata.Prelude.Int.{int_laws}
use sonata.Store.Types.{Reason, action_disabled, Message, Db, Env, Store, StoreError}
use sonata.Store.Deliveries.{fail_delivery, cancel_deliveries}
use sonata.Store.Messages.{complete_delivery, new_id}
use sonata.Store.Queries.{count_active}
use sonata.Store.Soundness.{IsSound}
use sonata.Store.Preserve.{fails, cancels, completes, perform, perform-IsSound, All-below_suc}
use sonata.Store.Counting.{write-err, count_active-fail_delivery}
use sonata.Store.Emitting.{count_active-cancel_deliveries, count_active-complete_delivery}
use sonata.Scheduler.Headers.{build_outputs}
use sonata.Scheduler.State.{Launch, ExecResult, SchedEnv, World}
use sonata.Scheduler.Balance.{Balance, failed_call}
use sonata.Scheduler.Apply.{
  outputs_of, after_complete, after_fail, exhausted, retry_gate, record_outcome, apply,
  after_cancel, handle_ctrl,
}

-- Drawing ids changes no row.
pub new_id-IsSound : (db : Db) → IsSound db → IsSound (new_id db).1
new_id-IsSound db s = record {
  rows = s.rows;
  unique = s.unique;
  below = All-below_suc db.next_id db.deliveries s.below;
}

build_outputs-IsSound :
    (m : Message) (queue action : Text) (version now : ℕ) (lines : List Text) (db : Db)
    → IsSound db
    → IsSound (build_outputs m queue action version now lines db).1
      × (count_active (build_outputs m queue action version now lines db).1 ≡ count_active db)
unfolding build_outputs count_active
build_outputs-IsSound m q a v now [] db s = (s, refl)
build_outputs-IsSound m q a v now (line ∷ lines) db s =
    build_outputs-IsSound m q a v now lines (new_id db).1 (new_id-IsSound db s)

outputs_of-IsSound :
    (r : Launch) (lines : List Text) (now : ℕ) (db : Db)
    → IsSound db
    → IsSound (outputs_of r lines now db).1
      × (count_active (outputs_of r lines now db).1 ≡ count_active db)
unfolding outputs_of
outputs_of-IsSound r lines now db s = elim (Bool-cases (is_empty r.action.def.output)) [
  | inl e ↦ rw e (s, refl)
  | inr e ↦ rw e (build_outputs-IsSound _ _ _ _ now lines db s)
]

fail-err :
    (env : Env) (id : ℕ) (b : Bool) (gate : ℕ) (why : Reason) (tail : Text) (now : ℕ) (s s' : Store)
    {x : StoreError}
    → fail_delivery env id b gate why tail now s ≡ (err x, s')
    → s'.db ≡ s.db
unfolding fail_delivery
fail-err env id b gate why tail now s s' e = write-err env _ s s' e

complete-err :
    (env : Env) (id : ℕ) (tail : Text) (outputs : List Message) (now : ℕ) (s s' : Store)
    {x : StoreError}
    → complete_delivery env id tail outputs now s ≡ (err x, s')
    → s'.db ≡ s.db
unfolding complete_delivery
complete-err env id tail outputs now s s' e = write-err env _ s s' e

cancel-err :
    (env : Env) (action : Text) (why : Reason) (now : ℕ) (s s' : Store) {x : StoreError}
    → cancel_deliveries env action why now s ≡ (err x, s')
    → s'.db ≡ s.db
unfolding cancel_deliveries
cancel-err env action why now s s' e = write-err env _ s s' e

module _ (env : SchedEnv) (owed : ℕ) where
  after_complete-Balance :
      (id : ℕ) (tail : Text) (outputs : List Message) (now : ℕ) (w : World)
      → Balance owed w
      → (r : Result StoreError ℕ × Store)
      → complete_delivery env.store_env id tail outputs now w.store ≡ r
      → Balance owed (after_complete r w)
  unfolding after_complete perform
  after_complete-Balance id tail outputs now w b (ok created, s) e =
      let moved =
        count_active-complete_delivery env.store_env w.store s id tail outputs now created
          b.sound.unique e in
      record {
        sound =
            subst (λ x. IsSound x.1.db) e
              (perform-IsSound env.store_env (completes id tail outputs now) w.store b.sound);
        count = omega (int_laws, moved, b.count);
      }
  after_complete-Balance id tail outputs now w b (err x, s) e =
      failed_call owed w s (complete-err env.store_env id tail outputs now w.store s e) b

  after_fail-Balance :
      (id : ℕ) (is_dead : Bool) (gate : ℕ) (why : Reason) (tail : Text) (now : ℕ) (w : World)
      → Balance owed w
      → (r : Result StoreError (Unit {0}) × Store)
      → fail_delivery env.store_env id is_dead gate why tail now w.store ≡ r
      → Balance owed (after_fail is_dead r w)
  unfolding after_fail perform
  after_fail-Balance id true gate why tail now w b (ok u, s) e =
      let moved =
        count_active-fail_delivery env.store_env w.store s id true gate why tail now b.sound.unique
          e in
      record {
        sound =
            subst (λ x. IsSound x.1.db) e
              (perform-IsSound env.store_env (fails id true gate why tail now) w.store b.sound);
        count = omega (int_laws, moved, b.count);
      }
  after_fail-Balance id false gate why tail now w b (ok u, s) e =
      let moved =
        count_active-fail_delivery env.store_env w.store s id false gate why tail now b.sound.unique
          e in
      record {
        sound =
            subst (λ x. IsSound x.1.db) e
              (perform-IsSound env.store_env (fails id false gate why tail now) w.store b.sound);
        count = omega (int_laws, moved, b.count);
      }
  after_fail-Balance id b gate why tail now w bal (err x, s) e =
      failed_call owed w s (fail-err env.store_env id b gate why tail now w.store s e) bal

  record_outcome-Balance :
      (r : Launch) (tail : Text) (now jitter : ℕ) (o : Result Reason (List Text)) (w : World)
      → Balance owed w
      → Balance owed (record_outcome env r tail now jitter o w)
  unfolding record_outcome
  record_outcome-Balance r tail now jitter (ok lines) w b =
      let (sound, same) = outputs_of-IsSound r lines now w.store.db b.sound in
      after_complete-Balance r.work.delivery.id tail _ now _
        (record { sound = sound; count = omega (arith, b.count, same) }) _ refl
  record_outcome-Balance r tail now jitter (err why) w b =
      after_fail-Balance r.work.delivery.id (exhausted r) (retry_gate env r now jitter) why tail now
        w b _ refl

  pub apply-Balance :
      (r : Launch) (res : ExecResult) (now jitter : ℕ) (w : World)
      → Balance owed w
      → Balance owed (apply env r res now jitter w)
  unfolding apply
  apply-Balance r res now jitter w b =
      record_outcome-Balance r res.stderr_tail now jitter _ _
        (record { sound = b.sound; count = b.count })

  after_cancel-Balance :
      (action : Text) (now : ℕ) (w : World)
      → Balance owed w
      → (r : Result StoreError ℕ × Store)
      → cancel_deliveries env.store_env action action_disabled now w.store ≡ r
      → Balance owed (after_cancel r w).1
  unfolding after_cancel perform
  after_cancel-Balance action now w b (ok n, s) e =
      let moved =
        count_active-cancel_deliveries env.store_env w.store s action action_disabled now n e in
      record {
        sound =
            subst (λ x. IsSound x.1.db) e
              (perform-IsSound env.store_env (cancels action action_disabled now) w.store b.sound);
        count = omega (int_laws, moved, b.count);
      }
  after_cancel-Balance action now w b (err x, s) e =
      failed_call owed w s (cancel-err env.store_env action action_disabled now w.store s e) b

  pub handle_ctrl-Balance :
      (action : Text) (now : ℕ) (w : World)
      → Balance owed w
      → Balance owed (handle_ctrl env action now w).1
  unfolding handle_ctrl
  handle_ctrl-Balance action now w b = after_cancel-Balance action now w b _ refl
