-- ===== src/Scheduler/Reaping.antt =====
-- ReapOrphans of internal/scheduler/reap.go: what it leaves of the executions of a dead daemon.

use sonata.Prelude.{
  ℕ, ◌≤◌, ◌≡◌, refl, ◌∙◌, inl, inr, Bool, true, List, [], ◌∷◌, ok, In, count, count-update_same,
  keep, update, if◌then◌else◌, arith, Bool-cases,
}
use sonata.Prelude.Sorting.{count-sort}
use sonata.Store.Types.{claimed, Delivery, Db, Store, Env, write, settle}
use sonata.Store.Deliveries.{
  has_id, in_state, running, is_active, exec_update, orphan_row, reset_orphan,
}
use sonata.Store.Queries.{by_id, claimed_deliveries, count_active}
use sonata.Store.Writes.{with_deliveries, committed}
use sonata.Scheduler.State.{SchedEnv}
use sonata.Scheduler.Apply.{continue_with, reset_all, reap_orphans}

-- Every claimed row has its id among the orphans that are still to be reset.
Covered : List Delivery → List Delivery → Type 0
Covered orphans rows =
    (r : Delivery) → In r rows → in_state claimed r ≡ true → 1 ≤ count (has_id r.id) orphans

In-update :
    (p : Delivery → Bool) (f : Delivery → Delivery) (r : Delivery) (rows : List Delivery)
    → In r (update p f rows)
    → (r₀ : Delivery) × In r₀ rows × (r ≡ (if p r₀ then f r₀ else r₀))
unfolding update
In-update p f r [] i = absurd i
In-update p f r (x ∷ rows) (inl e) = (x, inl refl, e)
In-update p f r (x ∷ rows) (inr i) = let (r₀, j, e) = In-update p f r rows i in (r₀, inr j, e)

-- Resetting an orphan leaves the others to be reset.
reset-Covered :
    (d : Delivery) (orphans rows : List Delivery) (now : ℕ)
    → Covered (d ∷ orphans) rows
    → Covered orphans (update (running d.id) (orphan_row now) rows)
unfolding Covered
reset-Covered d orphans rows now h r i c =
    let (r₀, j, e) = In-update (running d.id) (orphan_row now) r rows i in
    elim (Bool-cases (running d.id r₀)) [
      | inl b ↦ let one : r ≡ orphan_row now r₀ = rw b at e in absurd (cc (rw one at c))
      | inr b ↦
          let one : r ≡ r₀ = rw b at e in
          let still : in_state claimed r₀ ≡ true = rw one at c in
          let k : 1 ≤ count (has_id r₀.id) (d ∷ orphans) = h r₀ j still in rw one (ground arith)
    ]

In-keep :
    (q p : Delivery → Bool) (r : Delivery) (rows : List Delivery)
    → In r rows
    → q r ≡ true
    → p r ≡ true
    → 1 ≤ count p (keep q rows)
In-keep q p r [] i a b = absurd i
In-keep q p r (x ∷ rows) (inl e) a b =
    let qx : q x ≡ true = rw e at a in let px : p x ≡ true = rw e at b in rw (qx, px) (omega arith)
In-keep q p r (x ∷ rows) (inr i) a b =
    let rest = In-keep q p r rows i a b in
    elim (Bool-cases (q x)) [ inl e ↦ rw e (ground arith) | inr e ↦ rw e rest ]

claimed_deliveries-Covered : (db : Db) → Covered (claimed_deliveries db) db.deliveries
unfolding Covered claimed_deliveries
claimed_deliveries-Covered db r i c =
    rw (count-sort by_id (has_id r.id) (keep (in_state claimed) db.deliveries))
      (In-keep (in_state claimed) (has_id r.id) r db.deliveries i c (ground arith))

Covered-none : (rows : List Delivery) → Covered [] rows → count (in_state claimed) rows ≡ 0
unfolding Covered
Covered-none [] h = refl
Covered-none (x ∷ rows) h = elim (Bool-cases (in_state claimed x)) [
  | inl e ↦ absurd (omega (arith, h x (inl refl) e))
  | inr e ↦ rw e (Covered-none rows (λ r i. h r (inr i)))
]

reset_orphan-commits :
    (env : Env) (id now : ℕ) (s : Store)
    → env.commits s.writes ≡ true
    → reset_orphan env id now s
      ≡ (ok tt, committed s (with_deliveries (running id) (orphan_row now) s.db))
unfolding reset_orphan write settle exec_update
reset_orphan-commits env id now s c = rw c refl

module _ (env : SchedEnv) (now : ℕ → ℕ) (c : (n : ℕ) → env.store_env.commits n ≡ true) where
  reset_all-claimed :
      (orphans : List Delivery) (s : Store)
      → Covered orphans s.db.deliveries
      → let r = reset_all env now orphans s in
        (r.0 ≡ ok tt)
        × (count (in_state claimed) r.1.db.deliveries ≡ 0)
        × (count_active r.1.db ≡ count_active s.db)
  unfolding reset_all continue_with count_active
  reset_all-claimed [] s h = (refl, Covered-none s.db.deliveries h, refl)
  reset_all-claimed (d ∷ orphans) s h =
      let after : Store =
        committed s (with_deliveries (running d.id) (orphan_row (now s.writes)) s.db) in
      let (a, b, e) =
        reset_all-claimed orphans after
          (reset-Covered d orphans s.db.deliveries (now s.writes) h) in
      let same =
        count-update_same is_active (running d.id) (orphan_row (now s.writes)) s.db.deliveries
          (λ x p. ground arith) in
      rw (reset_orphan-commits env.store_env d.id (now s.writes) s (c s.writes)) (a, b, e ∙ same)

  -- When every write transaction commits, ReapOrphans succeeds, no delivery is left claimed, and
  -- as many deliveries are active as before.
  pub reap_orphans-claimed :
      (s : Store)
      → let r = reap_orphans env now s in
        (r.0 ≡ ok tt)
        × (count (in_state claimed) r.1.db.deliveries ≡ 0)
        × (count_active r.1.db ≡ count_active s.db)
  unfolding reap_orphans
  reap_orphans-claimed s =
      reset_all-claimed (claimed_deliveries s.db) s (claimed_deliveries-Covered s.db)
