-- ===== src/Scheduler/Unloaded.antt =====
-- dispatch of internal/scheduler/scheduler.go and the actions that loadActions leaves out.
use sonata.Prelude.Int.{negsuc}
use sonata.Scheduler.State.{add_active}
use sonata.Store.Soundness.{IsTerminal}
use sonata.Scheduler.Closure.{Closed, dispatch-Closed}
use sonata.Scheduler.Dispatch.{launch, load_actions, dispatch}
use sonata.Scheduler.Balance.{Balance, Balance-Closed, failed_call}
use sonata.Store.Deliveries.{claim_row}
use mathlib.Core.Path.{subst}
use sonata.Prelude.{
  ℕ, ◌≡◌, refl, ◌∙◌, Bool, true, false, some, List, [], ◌∷◌, Text, same, same→eq, ok, arith, All,
  Bool-cases, inl, inr, keep, update,
}
use sonata.Store.Types.{State, Reason, Delivery, Store, Env, write}
use sonata.Store.Deliveries.{
  has_id, of_action, claimable, claim_row, resolve_row, resolve_delivery, claim_delivery,
  exec_update, must_affect,
}
use sonata.Store.Queries.{Work, is_eligible, next_eligible}
use sonata.Store.Writes.{guarded_cases}
use sonata.Store.Eligible.{next_eligible-is_active}
use sonata.Prelude.Int.{ltb_ℤ}
use sonata.Scheduler.State.{ActionInfo, SchedEnv, World, running_of}

-- An update of rows of other actions, that changes no row's action, keeps an action's rows.
keep-update :
    (action : Text) (p : Delivery → Bool) (f : Delivery → Delivery) (rows : List Delivery)
    → ((d : Delivery) → of_action action (f d) ≡ of_action action d)
    → All (λ d. p d ≡ true → of_action action d ≡ false) rows
    → keep (of_action action) (update p f rows) ≡ keep (of_action action) rows
unfolding update
keep-update action p f [] k h = refl
keep-update action p f (d ∷ rows) k h = elim (Bool-cases (p d)) [
  | inl e ↦ rw (e, k d, h.0 e, keep-update action p f rows k h.1) refl
  | inr e ↦ elim (Bool-cases (of_action action d)) [
    | inl a ↦ rw (e, a, keep-update action p f rows k h.1) refl
    | inr a ↦ rw (e, a, keep-update action p f rows k h.1) refl
  ]
]

-- The rows under an id that NextEligible gives for one action are not another action's.
other_action :
    (name action : Text) (now id : ℕ) (p : Delivery → Bool) (rows : List Delivery)
    → same name action ≡ false
    → ((d : Delivery) → p d ≡ true → has_id id d ≡ true)
    → All (λ d. has_id id d ≡ true → is_eligible name now d ≡ true) rows
    → All (λ d. p d ≡ true → of_action action d ≡ false) rows
other_action name action now id p [] n q h = tt
other_action name action now id p (d ∷ rows) n q h =
    ((λ e. apart d (h.0 (q d e))), other_action name action now id p rows n q h.1)
  where
    apart : (d : Delivery) → is_eligible name now d ≡ true → of_action action d ≡ false
    apart d e =
        let mine : same d.action_name name ≡ true = ground arith in
        let one : d.action_name ≡ name = same→eq d.action_name name mine in rw one n

-- The rows of an action.
abbrev pub rows_of : Text → Store → List Delivery
rows_of action s = keep (of_action action) s.db.deliveries

guarded-rows_of :
    (env : Env) (action : Text) (p : Delivery → Bool) (f : Delivery → Delivery) (s : Store)
    → ((d : Delivery) → of_action action (f d) ≡ of_action action d)
    → All (λ d. p d ≡ true → of_action action d ≡ false) s.db.deliveries
    → rows_of action (write env (λ db. must_affect (exec_update p f db)) s).1 ≡ rows_of action s
guarded-rows_of env action p f s k h = elim (guarded_cases env p f s) [
  | inl (e, w) ↦ rw w refl
  | inr (n, w) ↦ rw w (keep-update action p f s.db.deliveries k h)
]

-- An action of another name.
abbrev Other : Text → ActionInfo → Type 0
Other action ai = same ai.name action ≡ false

module _ (env : SchedEnv) (action : Text) (now owed : ℕ) (rows : List Delivery) where
  -- On a sound table, the rows of the action are these.
  Keeps : World → Type 0
  Keeps w = Balance owed w × (rows_of action w.store ≡ rows)

  others :
      (ai : ActionInfo) (w : World) (work : Work) (p : Delivery → Bool)
      → Other action ai
      → Balance owed w
      → next_eligible ai.name now w.store.db ≡ some work
      → ((d : Delivery) → p d ≡ true → has_id work.delivery.id d ≡ true)
      → All (λ d. p d ≡ true → of_action action d ≡ false) w.store.db.deliveries
  others ai w work p other b n q =
      other_action ai.name action now work.delivery.id p w.store.db.deliveries other q
        (next_eligible-is_active ai.name now w.store.db work b.sound.unique n)

  settled-Keeps :
      (ai : ActionInfo) (w : World) (work : Work) (state : State) (why : Reason) (s : Store)
      → Other action ai
      → IsTerminal state
      → next_eligible ai.name now w.store.db ≡ some work
      → resolve_delivery env.store_env work.delivery.id state why now w.store ≡ (ok tt, s)
      → Keeps w
      → Keeps (add_active (negsuc 0) (record w { store = s }))
  unfolding Keeps resolve_delivery
  settled-Keeps ai w work state why s other t n e (b, k) = (
    (Balance-Closed env owed now {Q = Other action}).settled ai w work state why s other t n e b,
    subst (λ x. rows_of action x.1 ≡ rows) e
        (guarded-rows_of env.store_env action (has_id work.delivery.id) (resolve_row state why now)
            w.store (λ d. refl) (others ai w work (has_id work.delivery.id) other b n (λ d x. x))
          ∙ k),
  )

  launched-Keeps :
      (ai : ActionInfo) (w : World) (work : Work) (s : Store)
      → Other action ai
      → ltb_ℤ (running_of ai.name w.inflight) ai.concurrency ≡ true
      → next_eligible ai.name now w.store.db ≡ some work
      → claim_delivery env.store_env work.delivery.id ai.version now w.store ≡ (ok tt, s)
      → Keeps w
      → Keeps (launch ai work (record w { store = s }))
  unfolding Keeps claim_delivery
  launched-Keeps ai w work s other l n e (b, k) = (
    (Balance-Closed env owed now {Q = Other action}).launched ai w work s other l n e b,
    subst (λ x. rows_of action x.1 ≡ rows) e
        (guarded-rows_of env.store_env action (claimable work.delivery.id)
            (claim_row ai.version now) w.store (λ d. refl)
            (others ai w work (claimable work.delivery.id) other b n (λ d x. ground arith))
          ∙ k),
  )

  Keeps-Closed : Closed env now (Other action) Keeps
  unfolding Keeps
  Keeps-Closed = record {
    recached = λ w c h. (record { sound = h.0.sound; count = h.0.count }, h.1);
    refused = λ w s e h. (failed_call owed w s e h.0, rw e h.1);
    settled = settled-Keeps;
    launched = launched-Keeps;
  }

-- On a balanced scheduler, dispatch leaves the deliveries of an action that loadActions does not
-- give, such as a disabled one, as they are, whatever their states and gates.
pub dispatch-rows_of :
    (env : SchedEnv) (action : Text) (now owed fuel : ℕ) (w w' : World)
    → All (λ ai. same ai.name action ≡ false) (load_actions env w)
    → Balance owed w
    → dispatch env now fuel w ≡ some w'
    → rows_of action w'.store ≡ rows_of action w.store
unfolding Keeps
dispatch-rows_of env action now owed fuel w w' n b e =
    (dispatch-Closed env now (Other action) (Keeps env action now owed (rows_of action w.store))
      (Keeps-Closed env action now owed (rows_of action w.store)) fuel w w' n e (b, refl)).1
