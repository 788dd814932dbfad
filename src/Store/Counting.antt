-- ===== src/Store/Counting.antt =====
-- How the writes of internal/store change CountActiveDeliveries.
use sonata.Prelude.{
  ℕ, ◌≤◌, ◌+◌, ◌≡◌, inl, inr, Bool, true, false, arith, List, [], ◌∷◌, Text, count, All,
  if◌then◌else◌, Result, ok, err, count-update_same, count-update_leave, count-update_leave_in,
}
use sonata.Store.Types.{State, Reason, Delivery, Db, Env, Store, StoreError, write}
use sonata.Store.Deliveries.{
  has_id, claimable, running, is_active, exec_update, must_affect, claim_row, resolve_row, pgid_row,
  fail_row, claim_delivery, resolve_delivery, set_delivery_pgid, fail_delivery,
}
use sonata.Store.Queries.{count_active}
use sonata.Store.Writes.{with_deliveries, write_cases, guarded_cases}
use sonata.Store.Unique.{Unique, count-Unique}
use sonata.Store.Soundness.{IsTerminal}

-- A write transaction that returns an error, whatever its function has done, leaves the database
-- as it was.
pub write-err {ℓ} :
    {A : Type ℓ} (env : Env) (f : Db → Result StoreError (A × Db)) (s s' : Store) {e : StoreError}
    → write env f s ≡ (err e, s')
    → s'.db ≡ s.db
write-err env f s s' h = elim (write_cases env f s) [
  | inl (e, w) ↦ cc (w, h)
  | inr (a, db, e, w) ↦ cc (w, h)
]

-- A call that succeeds has done what its function computes.
pub write-ok {ℓ} :
    {A : Type ℓ} (env : Env) (f : Db → Result StoreError (A × Db)) (s s' : Store) {a : A}
    → write env f s ≡ (ok a, s')
    → f s.db ≡ ok (a, s'.db)
write-ok env f s s' h = elim (write_cases env f s) [
  | inl (e, w) ↦ cc (w, h)
  | inr (b, db, e, w) ↦ cc (w, h, e)
]

pub guarded-ok :
    (env : Env) (p : Delivery → Bool) (f : Delivery → Delivery) (s s' : Store)
    → write env (λ db. must_affect (exec_update p f db)) s ≡ (ok tt, s')
    → (1 ≤ count p s.db.deliveries) × (s'.db ≡ with_deliveries p f s.db)
guarded-ok env p f s s' h = elim (guarded_cases env p f s) [
  | inl (e, w) ↦ cc (w, h)
  | inr (n, w) ↦ (n, cc (w, h))
]

module _ (env : Env) (s s' : Store) where
  -- Claiming moves a row between two active states.
  pub count_active-claim_delivery :
      (id version now : ℕ)
      → claim_delivery env id version now s ≡ (ok tt, s')
      → count_active s'.db ≡ count_active s.db
  unfolding claim_delivery count_active
  count_active-claim_delivery id version now h =
      rw (guarded-ok env (claimable id) (claim_row version now) s s' h).1 (
        count-update_same is_active (claimable id) (claim_row version now) s.db.deliveries
          (λ d p. ground arith))

  -- On unique rows, resolving a delivery whose rows are active to a terminal state lowers the number
  -- of active deliveries by one.
  pub count_active-resolve_delivery :
      (id : ℕ) (state : State) (reason : Reason) (now : ℕ)
      → IsTerminal state
      → Unique s.db.deliveries
      → All (λ d. has_id id d ≡ true → is_active d ≡ true) s.db.deliveries
      → resolve_delivery env id state reason now s ≡ (ok tt, s')
      → count_active s'.db + 1 ≡ count_active s.db
  unfolding resolve_delivery count_active
  count_active-resolve_delivery id state reason now t u a h =
      let (n, e) = guarded-ok env (has_id id) (resolve_row state reason now) s s' h in
      let one = count-Unique id (has_id id) (λ d p. ground arith) s.db.deliveries u in
      let moved =
        count-update_leave_in is_active (has_id id) (resolve_row state reason now) s.db.deliveries
          (leaves s.db.deliveries a) in
      rw e (omega arith)
    where
      leaves :
          (ds : List Delivery)
          → All (λ d. has_id id d ≡ true → is_active d ≡ true) ds
          → All
              (λ d.
                has_id id d ≡ true
                → (is_active d ≡ true) × (is_active (resolve_row state reason now d) ≡ false))
              ds
      leaves [] a = tt
      leaves (d ∷ ds) a = ((λ p. (a.0 p, ground arith)), leaves ds a.1)

  -- On unique rows, a failure that is recorded keeps the number of active deliveries, and lowers it
  -- by one when the delivery is dead.
  pub count_active-fail_delivery :
      (id : ℕ) (is_dead : Bool) (gate : ℕ) (reason : Reason) (tail : Text) (now : ℕ)
      → Unique s.db.deliveries
      → fail_delivery env id is_dead gate reason tail now s ≡ (ok tt, s')
      → count_active s'.db + (if is_dead then 1 else 0) ≡ count_active s.db
  unfolding fail_delivery count_active
  count_active-fail_delivery id false gate reason tail now u h =
      let (n, e) = guarded-ok env (running id) (fail_row false gate reason tail now) s s' h in
      let same =
        count-update_same is_active (running id) (fail_row false gate reason tail now)
          s.db.deliveries (λ d p. ground arith) in
      rw e (omega arith)
  count_active-fail_delivery id true gate reason tail now u h =
      let (n, e) = guarded-ok env (running id) (fail_row true gate reason tail now) s s' h in
      let one = count-Unique id (running id) (λ d p. ground arith) s.db.deliveries u in
      let moved =
        count-update_leave is_active (running id) (fail_row true gate reason tail now)
          s.db.deliveries (λ d p. ground arith) in
      rw e (omega arith)

-- Recording a process group keeps the count, whether or not the row is still there.
pub count_active-set_delivery_pgid :
    (env : Env) (s : Store) (id pgid : ℕ)
    → count_active (set_delivery_pgid env id pgid s).1.db ≡ count_active s.db
unfolding set_delivery_pgid count_active exec_update
count_active-set_delivery_pgid env s id pgid =
    elim (write_cases env (λ db. ok (tt {0}, (exec_update (running id) (pgid_row pgid) db).1)) s) [
      | inl (e, w) ↦ rw w
      | inr (a, db, e, w) ↦
          let same =
            count-update_same is_active (running id) (pgid_row pgid) s.db.deliveries
              (λ d p. ground arith) in
          rw w (ground arith)
    ]
