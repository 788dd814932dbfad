-- ===== src/Scheduler/Lowering.antt =====
-- A round of dispatch of internal/scheduler/scheduler.go takes a row out of those that wait.
use mathlib.Core.Path.{subst}
use sonata.Prelude.{
  ℕ, ◌≤◌, ◌<◌, ◌≡◌, refl, ap, true, false, Option, none, some, List, [], ◌∷◌, Text, Result, ok, err,
  arith, All, In, Bool-cases, inl, inr, count, count-update_leave, count-update_leave_in,
}
use sonata.Prelude.Int.{ltb_ℤ}
use sonata.Store.Types.{
  cancelled, superseded, State, Reason, Delivery, Store, StoreError, Env, write, settle,
}
use sonata.Store.Deliveries.{
  has_id, waiting, claimable, claim_row, resolve_row, resolve_delivery, claim_delivery,
}
use sonata.Store.Queries.{Work, is_eligible, next_eligible}
use sonata.Store.Writes.{with_deliveries, committed, must_affect_cases}
use sonata.Store.Soundness.{IsTerminal}
use sonata.Store.Eligible.{Oldest, next_eligible-Oldest, next_eligible-is_active}
use sonata.Store.Counting.{guarded-ok}
use sonata.Workflow.Definition.{is_join}
use sonata.Scheduler.State.{ActionInfo, SchedEnv, World, running_of}
use sonata.Scheduler.Vet.{Verdict, run, verdict, vetted, vet, resolved, resolve}
use sonata.Scheduler.Verdict.{Settles, verdict-Settles}
use sonata.Scheduler.Dispatch.{
  Round, halt, more, claimed_round, vetted_round, eligible_round, round, cancelled_round,
  cancel_next, cancel_round, action_round,
}
use sonata.Scheduler.Balance.{Balance}
use sonata.Scheduler.Closure.{next_work-some, claim-err}

-- The rows that a loop of dispatch may still take.
abbrev pub waiting_rows : World → ℕ
waiting_rows w = count waiting w.store.db.deliveries

-- A round that goes on has taken a row; one that breaks has brought none.
abbrev pub Lowers : World → Round → Type 0
Lowers w (halt w') = waiting_rows w' ≤ waiting_rows w
Lowers w (more w') = waiting_rows w' < waiting_rows w

In-count : (d : Delivery) (ds : List Delivery) → In d ds → 1 ≤ count (has_id d.id) ds
In-count d [] i = absurd i
In-count d (e ∷ ds) (inl h) = let k = ap (λ (x : Delivery). x.id) h in ground arith
In-count d (e ∷ ds) (inr i) = let k = In-count d ds i in ground arith

claimed-waiting :
    (env : Env) (s s' : Store) (id version now : ℕ)
    → claim_delivery env id version now s ≡ (ok tt, s')
    → count waiting s'.db.deliveries < count waiting s.db.deliveries
unfolding claim_delivery
claimed-waiting env s s' id version now h =
    let (n, e) = guarded-ok env (claimable id) (claim_row version now) s s' h in
    let moved =
      count-update_leave waiting (claimable id) (claim_row version now) s.db.deliveries
        (λ d p. ground arith) in
    rw e (omega arith)

resolve-commits :
    (env : Env) (s : Store) (id : ℕ) (state : State) (reason : Reason) (now : ℕ)
    → env.commits s.writes ≡ true
    → 1 ≤ count (has_id id) s.db.deliveries
    → resolve_delivery env id state reason now s
      ≡ (ok tt, committed s (with_deliveries (has_id id) (resolve_row state reason now) s.db))
unfolding resolve_delivery write settle
resolve-commits env s id state reason now c n =
    elim (must_affect_cases (has_id id) (resolve_row state reason now) s.db) [
      | inl (z, e) ↦ absurd (omega (arith, z, n))
      | inr (k, e) ↦ rw (c, e) refl
    ]

resolved-waiting :
    (id : ℕ) (state : State) (reason : Reason) (now : ℕ) (ds : List Delivery)
    → IsTerminal state
    → All (λ d. has_id id d ≡ true → waiting d ≡ true) ds
    → All
        (λ d.
          has_id id d ≡ true
          → (waiting d ≡ true) × (waiting (resolve_row state reason now d) ≡ false))
        ds
resolved-waiting id state why now [] t a = tt
resolved-waiting id state why now (d ∷ ds) t a =
    ((λ p. (a.0 p, ground arith)), resolved-waiting id state why now ds t a.1)

weaken_waiting :
    (action : Text) (now id : ℕ) (ds : List Delivery)
    → All (λ d. has_id id d ≡ true → is_eligible action now d ≡ true) ds
    → All (λ d. has_id id d ≡ true → waiting d ≡ true) ds
weaken_waiting action now id [] h = tt
weaken_waiting action now id (d ∷ ds) h =
    ((λ e. let k = h.0 e in ground arith), weaken_waiting action now id ds h.1)

module _ (env : SchedEnv) (now owed : ℕ) (c : (n : ℕ) → env.store_env.commits n ≡ true) where
  -- An answer of NextEligible can be resolved.
  resolving :
      (action : Text) (w : World) (work : Work) (state : State) (reason : Reason)
      → Balance owed w
      → IsTerminal state
      → next_eligible action now w.store.db ≡ some work
      → (s : Store) × (resolve_delivery env.store_env work.delivery.id state reason now w.store
          ≡ (ok tt, s))
        × (count waiting s.db.deliveries < waiting_rows w)
  resolving action w work state reason b t e =
      let found : Oldest (is_eligible action now) w.store.db.messages w.store.db.deliveries
          (some work) =
        subst (Oldest (is_eligible action now) w.store.db.messages w.store.db.deliveries) e
          (next_eligible-Oldest action now w.store.db) in
      let n = In-count work.delivery w.store.db.deliveries found.0 in
      let rows =
        weaken_waiting action now work.delivery.id w.store.db.deliveries
          (next_eligible-is_active action now w.store.db work b.sound.unique e) in
      let moved =
        count-update_leave_in waiting (has_id work.delivery.id) (resolve_row state reason now)
          w.store.db.deliveries
          (resolved-waiting work.delivery.id state reason now w.store.db.deliveries t rows) in
      (
        _,
        resolve-commits env.store_env w.store work.delivery.id state reason now (c w.store.writes)
            n,
        omega arith,
      )

  claimed_round-Lowers :
      (ai : ActionInfo) (work : Work) (w : World) (r : Result StoreError (Unit {0}) × Store)
      → claim_delivery env.store_env work.delivery.id ai.version now w.store ≡ r
      → Lowers w (claimed_round ai work r w)
  unfolding claimed_round
  claimed_round-Lowers ai work w (ok u, s) e =
      claimed-waiting env.store_env w.store s work.delivery.id ai.version now e
  claimed_round-Lowers ai work w (err x, s) e =
      let same = claim-err env.store_env work.delivery.id ai.version now w.store s e in
      rw same (omega arith)

  vetted_round-Lowers :
      (ai : ActionInfo) (work : Work) (w : World) (v : Verdict)
      → Balance owed w
      → Settles v
      → next_eligible ai.name now w.store.db ≡ some work
      → Lowers w (vetted_round env ai work now (vetted env work.delivery.id now v w))
  unfolding vetted_round vetted resolve resolved
  vetted_round-Lowers ai work w run b t e = claimed_round-Lowers ai work w _ refl
  vetted_round-Lowers ai work w (Verdict.settle state why) b t e =
      let (s, h, l) = resolving ai.name w work state why b t e in rw h l

  eligible_round-Lowers :
      (ai : ActionInfo) (w : World) (o : Option Work)
      → Balance owed w
      → ((work : Work) → o ≡ some work → next_eligible ai.name now w.store.db ≡ some work)
      → Lowers w (eligible_round env ai now w o)
  unfolding eligible_round vet
  eligible_round-Lowers ai w none b e = omega arith
  eligible_round-Lowers ai w (some work) b e =
      vetted_round-Lowers ai work (record w { cache = (verdict env ai work.message w.cache).1 }) _
        (record { sound = b.sound; count = b.count }) (verdict-Settles env ai work.message w.cache)
        (e work refl)

  cancel_next-Lowers :
      (ai : ActionInfo) (w : World) (o : Option Work)
      → Balance owed w
      → ((work : Work) → o ≡ some work → next_eligible ai.name now w.store.db ≡ some work)
      → Lowers w (cancel_next env ai now w o)
  unfolding cancel_next cancelled_round
  cancel_next-Lowers ai w none b e = omega arith
  cancel_next-Lowers ai w (some work) b e =
      let (s, h, l) =
        resolving ai.name w work cancelled (superseded ai.version) b tt (e work refl) in
      rw h l

  pub action_round-Lowers :
      (ai : ActionInfo) (w : World) → Balance owed w → Lowers w (action_round env ai now w)
  unfolding action_round round cancel_round
  action_round-Lowers ai w b = elim (Bool-cases (is_join ai.def)) [
    | inl e ↦ rw e (cancel_next-Lowers ai w _ b (next_work-some env ai.name now w _ refl))
    | inr e ↦ rw e (elim (Bool-cases (ltb_ℤ (running_of ai.name w.inflight) ai.concurrency)) [
      | inl l ↦ rw l (eligible_round-Lowers ai w _ b (next_work-some env ai.name now w _ refl))
      | inr l ↦ rw l (omega arith)
    ])
  ]
