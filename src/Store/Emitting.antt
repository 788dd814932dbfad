-- ===== src/Store/Emitting.antt =====
-- How replaying, cancelling, appending and completing change CountActiveDeliveries.
use mathlib.Core.Path.{subst}
use sonata.Prelude.{
  ℕ, suc, ◌≤◌, ◌+◌, ◌≡◌, inl, inr, not, ◌||◌, arith, List, [], ◌∷◌, Text, count, count-append, keep,
  any, ◌==◌, Bool-cases, Option-cases, Result, ok, err, ◌>>=◌, Ends, Ends-bind, Ends-any,
  count-update_leave, count-update_enter,
}
use sonata.Store.Types.{Reason, Message, Delivery, Db, Env, Store, StoreError}
use sonata.Store.Deliveries.{
  running, replayable, cancellable, is_active, exec_update, find_delivery, read_back, replayed,
  replay_row, cancel_row, replay_delivery, cancel_deliveries,
}
use sonata.Store.Messages.{
  complete_row, pending_delivery, count_names, has_message_id, refers, insert_delivery,
  insert_pending, insert_message, subscribers, materialize_deliveries, append_one, append_message,
  emit, completed, complete_delivery,
}
use sonata.Store.Actions.{list_actions}
use sonata.Store.Queries.{count_active}
use sonata.Store.Writes.{with_deliveries}
use sonata.Store.Unique.{Unique, count-Unique}
use sonata.Store.Counting.{write-ok}

module _ (env : Env) (s s' : Store) where
  -- On unique rows, a replay that succeeds raises the number of active deliveries by one.
  pub count_active-replay_delivery :
      (id : ℕ) (d : Delivery)
      → Unique s.db.deliveries
      → replay_delivery env id s ≡ (ok d, s')
      → count_active s'.db ≡ count_active s.db + 1
  unfolding replay_delivery count_active replayed exec_update read_back
  count_active-replay_delivery id d u h =
      let e = write-ok env (λ db. replayed id (exec_update (replayable id) replay_row db)) s s' h in
      let one = count-Unique id (replayable id) (λ d p. ground arith) s.db.deliveries u in
      let moved =
        count-update_enter is_active (replayable id) replay_row s.db.deliveries
          (λ d p. ground arith) in
      ground
        (arith, Option-cases (find_delivery id (with_deliveries (replayable id) replay_row s.db)))

  -- CancelDeliveries lowers the number of active deliveries by the number that it reports.
  pub count_active-cancel_deliveries :
      (action : Text) (reason : Reason) (now n : ℕ)
      → cancel_deliveries env action reason now s ≡ (ok n, s')
      → count_active s'.db + n ≡ count_active s.db
  unfolding cancel_deliveries count_active exec_update
  count_active-cancel_deliveries action reason now n h =
      let e =
        write-ok env (λ db. ok (exec_update (cancellable action) (cancel_row reason now) db)) s s'
          h in
      let moved =
        count-update_leave is_active (cancellable action) (cancel_row reason now) s.db.deliveries
          (λ d p. ground arith) in
      ground arith

insert_delivery-count :
    (id m : ℕ) (name : Text) (db : Db)
    → Ends
        (λ db'. count_active db' ≡ count_active db + 1)
        (insert_delivery (pending_delivery id m name) db)
unfolding insert_delivery count_active
insert_delivery-count id m name db =
    ground (arith, count-append is_active db.deliveries (pending_delivery id m name ∷ []))

-- What a call adds to the count of active rows.
abbrev Adds : ℕ → Db → Db → Type 0
Adds n db db' = count_active db' ≡ count_active db + n

Ends-weaken {ℓ} :
    {A : Type ℓ} (P Q : A → Type 0) (r : Result StoreError A)
    → Ends P r
    → ((a : A) → P a → Q a)
    → Ends Q r
Ends-weaken P Q (ok a) h k = k a h
Ends-weaken P Q (err e) h k = tt

insert_pending-count :
    (m : ℕ) (names : List Text) (db : Db)
    → Ends (Adds (count_names names) db) (insert_pending m names db)
unfolding insert_pending count_active
insert_pending-count m [] db = omega arith
insert_pending-count m (name ∷ names) db =
    Ends-bind (Adds 1 db) (Adds (suc (count_names names)) db) _ _
      (insert_delivery-count db.next_id m name (record db { next_id = suc db.next_id }))
      λ db' one.
        Ends-weaken (Adds (count_names names) db') (Adds (suc (count_names names)) db) _
          (insert_pending-count m names db') (λ db'' rest. omega arith)

insert_message-count : (m : Message) (db : Db) → Ends (Adds 0 db) (insert_message m db)
unfolding insert_message count_active
insert_message-count m db =
    elim (Bool-cases
      (any (has_message_id m.id) db.messages || not (refers m.origin_message_id db))) [
        | inl e ↦ rw e tt
        | inr e ↦ rw e (omega arith)
      ]

-- A result that reports how many active rows it has added.
abbrev Reports : Db → ℕ × Db → Type 0
Reports db r = Adds r.0 db r.1

materialize_deliveries-count :
    (env : Env) (m : Message) (db : Db) → Ends (Reports db) (materialize_deliveries env m db)
unfolding materialize_deliveries
materialize_deliveries-count env m db =
    Ends-bind (λ names. Unit {0}) (Reports db)
      (subscribers env m.queue (keep (λ a. a.enabled) (list_actions db)))
      (λ names. do db' ← insert_pending m.id names db; ok (count_names names, db')) (Ends-any _)
      λ names _.
        Ends-bind (Adds (count_names names) db) (Reports db) (insert_pending m.id names db)
          (λ db'. ok (count_names names, db')) (insert_pending-count m.id names db) (λ db' h. h)

append_one-count : (env : Env) (m : Message) (db : Db) → Ends (Reports db) (append_one env m db)
unfolding append_one
append_one-count env m db =
    Ends-bind (Adds 0 db) (Reports db) (insert_message m db) _ (insert_message-count m db) λ db' z.
      Ends-weaken (Reports db') (Reports db) _ (materialize_deliveries-count env m db')
        (λ r h. omega arith)

emit-count : (env : Env) (ms : List Message) (db : Db) → Ends (Reports db) (emit env ms db)
unfolding emit
emit-count env [] db = omega arith
emit-count env (m ∷ ms) db =
    Ends-bind (Reports db) (Reports db) (append_one env m db) _ (append_one-count env m db) λ r h.
      Ends-bind (Reports r.1) (Reports db) (emit env ms r.1) (λ q. ok (r.0 + q.0, q.1))
        (emit-count env ms r.1) (λ q k. omega arith)

-- Completing takes one row out and brings in one for each delivery of the outputs.
completed-count :
    (env : Env) (id : ℕ) (tail : Text) (outputs : List Message) (now : ℕ) (db : Db)
    → Unique db.deliveries
    → Ends
        (λ r. count_active r.1 + 1 ≡ count_active db + r.0)
        (completed env id tail outputs now db)
unfolding completed exec_update count_active
completed-count env id tail outputs now db u =
    elim (Bool-cases (count (running id) db.deliveries == 0)) [
      | inl e ↦ rw e tt
      | inr e ↦
          let one = count-Unique id (running id) (λ d p. ground arith) db.deliveries u in
          let moved =
            count-update_leave is_active (running id) (complete_row tail now) db.deliveries
              (λ d p. ground arith) in
          let some_row : 1 ≤ count (running id) db.deliveries = ground arith in
          rw e (
            Ends-weaken (Reports (with_deliveries (running id) (complete_row tail now) db))
              (λ r. count_active r.1 + 1 ≡ count_active db + r.0) _
              (emit-count env outputs (with_deliveries (running id) (complete_row tail now) db))
              (λ r h. omega arith))
    ]

ended {ℓ} :
    {A : Type ℓ} (P : A → Type 0) (r : Result StoreError A) (a : A) → Ends P r → r ≡ ok a → P a
ended P r a h e = subst (Ends P) e h

module _ (env : Env) (s s' : Store) where
  -- AppendMessage raises the number of active deliveries by the number that it reports.
  pub count_active-append_message :
      (m : Message) (n : ℕ)
      → append_message env m s ≡ (ok n, s')
      → count_active s'.db ≡ count_active s.db + n
  unfolding append_message
  count_active-append_message m n h =
      ended (Reports s.db) (append_one env m s.db) (n, s'.db) (append_one-count env m s.db)
        (write-ok env (append_one env m) s s' h)

  -- On unique rows, CompleteDelivery takes its delivery out of the active ones and brings in as many as it reports.
  pub count_active-complete_delivery :
      (id : ℕ) (tail : Text) (outputs : List Message) (now n : ℕ)
      → Unique s.db.deliveries
      → complete_delivery env id tail outputs now s ≡ (ok n, s')
      → count_active s'.db + 1 ≡ count_active s.db + n
  unfolding complete_delivery
  count_active-complete_delivery id tail outputs now n u h =
      ended (λ r. count_active r.1 + 1 ≡ count_active s.db + r.0)
        (completed env id tail outputs now s.db) (n, s'.db)
        (completed-count env id tail outputs now s.db u)
        (write-ok env (completed env id tail outputs now) s s' h)
