-- ===== src/Store/Writes.antt =====
-- What a write transaction of internal/store may do: fail and change nothing, or commit what its
-- function computes.
use sonata.Prelude.{
  ℕ, suc, ◌≤◌, ◌≡◌, refl, ◌⊎◌, inl, inr, Bool, true, false, arith, Result, ok, err, count, update,
  ◌==◌, Bool-cases,
}
use sonata.Store.Types.{
  Delivery, Db, StoreError, unexpected_state, Env, Store, write, settle, write_failed,
}
use sonata.Store.Deliveries.{exec_update, must_affect}

abbrev pub with_deliveries : (Delivery → Bool) → (Delivery → Delivery) → Db → Db
with_deliveries p f db = record db { deliveries = update p f db.deliveries }

abbrev pub committed : Store → Db → Store
committed s db = record { db = db; writes = suc s.writes }

settle_cases {ℓ} :
    {A : Type ℓ} (b : Bool) (r : Result StoreError (A × Db)) (before : Db) (n : ℕ)
    → ((e : StoreError) × (settle b r before n ≡ (err e, record { db = before; writes = n })))
      ⊎ ((a : A) × (db : Db) × (r ≡ ok (a, db))
          × (settle b r before n ≡ (ok a, record { db = db; writes = n })))
unfolding settle
settle_cases false r before n = inl (write_failed, refl)
settle_cases true (ok (a, db)) before n = inr (a, db, refl, refl)
settle_cases true (err e) before n = inl (e, refl)

-- Either an error and the old database, or the result and the database of the function.
pub write_cases {ℓ} :
    {A : Type ℓ} (env : Env) (f : Db → Result StoreError (A × Db)) (s : Store)
    → ((e : StoreError) × (write env f s ≡ (err e, committed s s.db)))
      ⊎ ((a : A) × (db : Db) × (f s.db ≡ ok (a, db)) × (write env f s ≡ (ok a, committed s db)))
unfolding write
write_cases env f s = settle_cases (env.commits s.writes) (f s.db) s.db (suc s.writes)

pub must_affect_cases :
    (p : Delivery → Bool) (f : Delivery → Delivery) (db : Db)
    → ((count p db.deliveries ≡ 0) × (must_affect (exec_update p f db) ≡ err unexpected_state))
      ⊎ ((1 ≤ count p db.deliveries)
          × (must_affect (exec_update p f db) ≡ ok (tt, with_deliveries p f db)))
unfolding exec_update
must_affect_cases p f db = elim (Bool-cases (count p db.deliveries == 0)) [
  | inl e ↦ inl (ground arith, rw e)
  | inr e ↦ inr (ground arith, rw e)
]

-- An UPDATE that must affect a row: it fails and changes nothing, or it has a row and commits.
pub guarded_cases :
    (env : Env) (p : Delivery → Bool) (f : Delivery → Delivery) (s : Store)
    → let r = write env (λ db. must_affect (exec_update p f db)) s in
      ((e : StoreError) × (r ≡ (err e, committed s s.db)))
      ⊎ ((1 ≤ count p s.db.deliveries) × (r ≡ (ok tt, committed s (with_deliveries p f s.db))))
guarded_cases env p f s = elim (write_cases env (λ db. must_affect (exec_update p f db)) s) [
  | inl failed ↦ inl failed
  | inr (a, db, h, w) ↦ elim (must_affect_cases p f s.db) [
    | inl (z, e) ↦ cc (h, e)
    | inr (n, e) ↦ inr (n, cc (h, e, w))
  ]
]
