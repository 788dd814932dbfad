-- ===== src/Store/Growing.antt =====
-- The INSERTs of internal/store, as an induction: what one new row and one new message keep, the
-- writes that append messages with their deliveries keep.
use sonata.Prelude.{
  ℕ, suc, ◌+◌, ◌≡◌, inl, inr, Bool, false, not, Option, none, some, ◌||◌, List, [], ◌∷◌, ◌++◌, Text,
  any, keep, count, ◌==◌, Bool-cases, arith, Result, ok, ◌>>=◌, Ends, Ends-bind, Ends-any,
}
use sonata.Store.Types.{Message, Delivery, Db, Env, Store, StoreError, write}
use sonata.Store.Deliveries.{running, exec_update, must_affect, find_delivery, read_back, replayed}
use sonata.Store.Messages.{
  complete_row, pending_delivery, count_names, has_message_id, refers, insert_delivery,
  insert_pending, insert_message, subscribers, materialize_deliveries, append_one, emit, completed,
}
use sonata.Store.Actions.{list_actions}
use sonata.Store.Writes.{with_deliveries, write_cases}
use sonata.Store.Unique.{conflicts}

-- What a property of the database must satisfy: a new message does not matter, nor a pending row
-- with a new id that conflicts with no other.
pub record Growing (P : Db → Type 0) : Type 0 where
  pub messaged : (db : Db) (ms : List Message) → P db → P (record db { messages = ms })
  pub inserted :
      (db : Db) (m : ℕ) (name : Text)
      → any (conflicts (pending_delivery db.next_id m name)) db.deliveries ≡ false
      → P db
      → P (record db {
        deliveries = db.deliveries ++ pending_delivery db.next_id m name ∷ [];
        next_id = suc db.next_id;
      })

-- For a result that comes with the new database.
abbrev pub After {ℓ} : (Db → Type 0) → {A : Type ℓ} → A × Db → Type 0
After P r = P r.1

module _ (P : Db → Type 0) (growing : Growing P) where
  insert_new :
      (db : Db) (m : ℕ) (name : Text)
      → P db
      → Ends P (
          insert_delivery
            (pending_delivery db.next_id m name)
            (record db { next_id = suc db.next_id }))
  unfolding insert_delivery
  insert_new db m name p =
      let d = pending_delivery db.next_id m name in
      elim (Bool-cases (any (conflicts d) db.deliveries || not (refers (some m) db))) [
        | inl e ↦ rw e tt
        | inr e ↦ rw e (growing.inserted db m name (ground arith) p)
      ]

  insert_pending-Growing :
      (m : ℕ) (names : List Text) (db : Db) → P db → Ends P (insert_pending m names db)
  unfolding insert_pending
  insert_pending-Growing m [] db p = p
  insert_pending-Growing m (name ∷ names) db p =
      Ends-bind P P _ _ (insert_new db m name p) (λ db' p'. insert_pending-Growing m names db' p')

  insert_message-Growing : (m : Message) (db : Db) → P db → Ends P (insert_message m db)
  unfolding insert_message
  insert_message-Growing m db p =
      elim (Bool-cases
        (any (has_message_id m.id) db.messages || not (refers m.origin_message_id db))) [
          | inl e ↦ rw e tt
          | inr e ↦ rw e (growing.messaged db _ p)
        ]

  materialize_deliveries-Growing :
      (env : Env) (m : Message) (db : Db) → P db → Ends (After P) (materialize_deliveries env m db)
  unfolding materialize_deliveries
  materialize_deliveries-Growing env m db p =
      Ends-bind (λ names. Unit {0}) (After P {A = ℕ})
        (subscribers env m.queue (keep (λ a. a.enabled) (list_actions db)))
        (λ names. do db' ← insert_pending m.id names db; ok (count_names names, db')) (Ends-any _)
        λ names _.
          Ends-bind P (After P {A = ℕ}) (insert_pending m.id names db)
            (λ db'. ok (count_names names, db')) (insert_pending-Growing m.id names db p)
            (λ db' p'. p')

  pub append_one-Growing :
      (env : Env) (m : Message) (db : Db) → P db → Ends (After P) (append_one env m db)
  unfolding append_one
  append_one-Growing env m db p =
      Ends-bind P (After P {A = ℕ}) (insert_message m db) _ (insert_message-Growing m db p)
        (λ db' p'. materialize_deliveries-Growing env m db' p')

  emit-Growing : (env : Env) (ms : List Message) (db : Db) → P db → Ends (After P) (emit env ms db)
  unfolding emit
  emit-Growing env [] db p = p
  emit-Growing env (m ∷ ms) db p =
      Ends-bind (After P {A = ℕ}) (After P {A = ℕ}) (append_one env m db) _
        (append_one-Growing env m db p)
        λ r p'.
          Ends-bind (After P {A = ℕ}) (After P {A = ℕ}) (emit env ms r.1) (λ q. ok (r.0 + q.0, q.1))
            (emit-Growing env ms r.1 p') (λ q p''. p'')

  pub completed-Growing :
      (env : Env) (id : ℕ) (tail : Text) (outputs : List Message) (now : ℕ) (db : Db)
      → P (with_deliveries (running id) (complete_row tail now) db)
      → Ends (After P) (completed env id tail outputs now db)
  unfolding completed exec_update
  completed-Growing env id tail outputs now db p =
      elim (Bool-cases (count (running id) db.deliveries == 0)) [
        | inl e ↦ rw e tt
        | inr e ↦ rw e (emit-Growing env outputs _ p)
      ]

module _ (P : Db → Type 0) where
  -- A transaction keeps a property when its function does.
  pub write-Ends {ℓ} :
      {A : Type ℓ} (env : Env) (f : Db → Result StoreError (A × Db)) (s : Store)
      → P s.db
      → Ends (After P) (f s.db)
      → P (write env f s).1.db
  write-Ends env f s h k = elim (write_cases env f s) [
    | inl (e, w) ↦ rw w h
    | inr (a, db, e, w) ↦ rw w ((rw e at k))
  ]

  must_affect-Ends :
      (p : Delivery → Bool) (f : Delivery → Delivery) (db : Db)
      → P (with_deliveries p f db)
      → Ends (After P) (must_affect (exec_update p f db))
  unfolding exec_update
  must_affect-Ends p f db h = elim (Bool-cases (count p db.deliveries == 0)) [
    | inl e ↦ rw e tt
    | inr e ↦ rw e h
  ]

  -- An UPDATE that must affect a row.
  pub guarded-Ends :
      (env : Env) (p : Delivery → Bool) (f : Delivery → Delivery) (s : Store)
      → P s.db
      → P (with_deliveries p f s.db)
      → P (write env (λ db. must_affect (exec_update p f db)) s).1.db
  guarded-Ends env p f s h k = write-Ends env _ s h (must_affect-Ends p f s.db k)

  -- An UPDATE that may affect none.
  pub free-Ends :
      (env : Env) (p : Delivery → Bool) (f : Delivery → Delivery) (s : Store)
      → P s.db
      → P (with_deliveries p f s.db)
      → P (write env (λ db. ok (tt {0}, (exec_update p f db).1)) s).1.db
  unfolding exec_update
  free-Ends env p f s h k = write-Ends env _ s h k

  pub replayed-Ends : (id n : ℕ) (db : Db) → P db → Ends (After P) (replayed id (n, db))
  unfolding replayed
  replayed-Ends id n db p = elim (Bool-cases (n == 0)) [
    | inl e ↦ rw e tt
    | inr e ↦ rw e (back (find_delivery id db))
  ]
    where
      back : (o : Option Delivery) → Ends (After P) (read_back o db)
      back none = tt
      back (some d) = p
