-- ===== src/Scheduler/Closure.antt =====
-- dispatch of internal/scheduler/scheduler.go, as an induction: what the writes of its loops keep,
-- dispatch keeps.
use mathlib.Core.Path.{subst}
use sonata.Prelude.{
  ℕ, zero, suc, ◌≡◌, refl, true, Option, none, some, List, [], ◌∷◌, Result, ok, err, All,
  Bool-cases, inl, inr, Text, ◌∙◌,
}
use sonata.Prelude.Int.{negsuc, ltb_ℤ}
use sonata.Store.Types.{cancelled, superseded, State, Reason, Store, StoreError, Env}
use sonata.Store.Deliveries.{resolve_delivery, claim_delivery}
use sonata.Store.Queries.{Work, next_eligible}
use sonata.Store.Soundness.{IsTerminal}
use sonata.Store.Counting.{write-err}
use sonata.Workflow.Definition.{is_join}
use sonata.Workflow.Cel.{Cache}
use sonata.Scheduler.State.{ActionInfo, SchedEnv, World, running_of, add_active}
use sonata.Scheduler.Vet.{Verdict, run, settle, verdict, vetted, vet, resolved, resolve}
use sonata.Scheduler.Verdict.{Settles, verdict-Settles}
use sonata.Scheduler.Dispatch.{
  Round, halt, more, launch, claimed_round, vetted_round, eligible_round, next_work, round,
  cancelled_round, cancel_next, cancel_round, action_round, after_round, rounds, and_then,
  dispatch_all, load_actions, dispatch,
}

-- A property of the state after a round.
abbrev pub InRound : (World → Type 0) → Round → Type 0
InRound P (halt w) = P w
InRound P (more w) = P w

-- A property of the result, where the fuel is enough.
abbrev pub InSome : (World → Type 0) → Option World → Type 0
InSome P none = Unit
InSome P (some w) = P w

-- What a property of the scheduler's state must satisfy, for actions of some kind: the cache of
-- programs does not matter, nor a write that failed, and the delivery that NextEligible answers may
-- be resolved to a terminal state, or claimed and launched while the action has room.
pub record Closed (env : SchedEnv) (now : ℕ) (Q : ActionInfo → Type 0) (P : World → Type 0)
    : Type 0 where
  pub recached : (w : World) (c : Cache) → P w → P (record w { cache = c })
  pub refused : (w : World) (s : Store) → s.db ≡ w.store.db → P w → P (record w { store = s })
  pub settled :
      (ai : ActionInfo) (w : World) (work : Work) (state : State) (why : Reason) (s : Store)
      → Q ai
      → IsTerminal state
      → next_eligible ai.name now w.store.db ≡ some work
      → resolve_delivery env.store_env work.delivery.id state why now w.store ≡ (ok tt, s)
      → P w
      → P (add_active (negsuc 0) (record w { store = s }))
  pub launched :
      (ai : ActionInfo) (w : World) (work : Work) (s : Store)
      → Q ai
      → ltb_ℤ (running_of ai.name w.inflight) ai.concurrency ≡ true
      → next_eligible ai.name now w.store.db ≡ some work
      → claim_delivery env.store_env work.delivery.id ai.version now w.store ≡ (ok tt, s)
      → P w
      → P (launch ai work (record w { store = s }))

-- What a loop takes is what NextEligible answers.
pub next_work-some :
    (env : SchedEnv) (name : Text) (now : ℕ) (w : World) (o : Option Work)
    → next_work env name now w ≡ o
    → (work : Work) → o ≡ some work
    → next_eligible name now w.store.db ≡ some work
unfolding next_work
next_work-some env name now w o e work f = elim (Bool-cases (env.reads name now w.store.writes)) [
  | inl r ↦ (rw r at e) ∙ f
  | inr r ↦ cc ((rw r at e), f)
]

pub resolve-err :
    (env : Env) (id : ℕ) (state : State) (reason : Reason) (now : ℕ) (s s' : Store) {x : StoreError}
    → resolve_delivery env id state reason now s ≡ (err x, s')
    → s'.db ≡ s.db
unfolding resolve_delivery
resolve-err env id state why now s s' e = write-err env _ s s' e

pub claim-err :
    (env : Env) (id version now : ℕ) (s s' : Store) {x : StoreError}
    → claim_delivery env id version now s ≡ (err x, s')
    → s'.db ≡ s.db
unfolding claim_delivery
claim-err env id version now s s' e = write-err env _ s s' e

module _ (env : SchedEnv) (now : ℕ) (Q : ActionInfo → Type 0) (P : World → Type 0)
    (closed : Closed env now Q P) where
  resolved-Closed :
      (ai : ActionInfo) (w : World) (work : Work) (state : State) (why : Reason)
      (r : Result StoreError (Unit {0}) × Store)
      → Q ai
      → IsTerminal state
      → next_eligible ai.name now w.store.db ≡ some work
      → resolve_delivery env.store_env work.delivery.id state why now w.store ≡ r
      → P w
      → P (resolved r w)
  unfolding resolved
  resolved-Closed ai w work state why (ok u, s) q t n e p =
      closed.settled ai w work state why s q t n e p
  resolved-Closed ai w work state why (err x, s) q t n e p =
      closed.refused w s (resolve-err env.store_env work.delivery.id state why now w.store s e) p

  module _ (ai : ActionInfo) (q : Q ai) where
    claimed_round-Closed :
        (w : World) (work : Work) (r : Result StoreError (Unit {0}) × Store)
        → ltb_ℤ (running_of ai.name w.inflight) ai.concurrency ≡ true
        → next_eligible ai.name now w.store.db ≡ some work
        → claim_delivery env.store_env work.delivery.id ai.version now w.store ≡ r
        → P w
        → InRound P (claimed_round ai work r w)
    unfolding claimed_round
    claimed_round-Closed w work (ok u, s) l n e p = closed.launched ai w work s q l n e p
    claimed_round-Closed w work (err x, s) l n e p =
        closed.refused w s (claim-err env.store_env work.delivery.id ai.version now w.store s e) p

    vetted_round-Closed :
        (w : World) (work : Work) (v : Verdict)
        → Settles v
        → ltb_ℤ (running_of ai.name w.inflight) ai.concurrency ≡ true
        → next_eligible ai.name now w.store.db ≡ some work
        → P w
        → InRound P (vetted_round env ai work now (vetted env work.delivery.id now v w))
    unfolding vetted_round vetted resolve
    vetted_round-Closed w work run t l n p = claimed_round-Closed w work _ l n refl p
    vetted_round-Closed w work (settle state why) t l n p =
        resolved-Closed ai w work state why
          (resolve_delivery env.store_env work.delivery.id state why now w.store) q t n refl p

    eligible_round-Closed :
        (w : World) (o : Option Work)
        → ltb_ℤ (running_of ai.name w.inflight) ai.concurrency ≡ true
        → ((work : Work) → o ≡ some work → next_eligible ai.name now w.store.db ≡ some work)
        → P w
        → InRound P (eligible_round env ai now w o)
    unfolding eligible_round vet
    eligible_round-Closed w none l n p = p
    eligible_round-Closed w (some work) l n p =
        vetted_round-Closed (record w { cache = (verdict env ai work.message w.cache).1 }) work
          (verdict env ai work.message w.cache).0 (verdict-Settles env ai work.message w.cache) l
          (n work refl) (closed.recached w _ p)

    cancelled_round-Closed :
        (w : World) (r : Result StoreError (Unit {0}) × Store)
        → P (resolved r w)
        → InRound P (cancelled_round r w)
    unfolding cancelled_round resolved
    cancelled_round-Closed w (ok u, s) p = p
    cancelled_round-Closed w (err x, s) p = p

    cancel_next-Closed :
        (w : World) (o : Option Work)
        → ((work : Work) → o ≡ some work → next_eligible ai.name now w.store.db ≡ some work)
        → P w
        → InRound P (cancel_next env ai now w o)
    unfolding cancel_next
    cancel_next-Closed w none n p = p
    cancel_next-Closed w (some work) n p =
        cancelled_round-Closed w _
          (resolved-Closed ai w work cancelled (superseded ai.version) _ q tt (n work refl) refl p)

    pub action_round-Closed : (w : World) → P w → InRound P (action_round env ai now w)
    unfolding action_round round cancel_round
    action_round-Closed w p = elim (Bool-cases (is_join ai.def)) [
      | inl e ↦ rw e (cancel_next-Closed w _ (next_work-some env ai.name now w _ refl) p)
      | inr e ↦ rw e (elim (Bool-cases (ltb_ℤ (running_of ai.name w.inflight) ai.concurrency)) [
        | inl l ↦ rw l (eligible_round-Closed w _ l (next_work-some env ai.name now w _ refl) p)
        | inr l ↦ rw l p
      ])
    ]

    after_round-Closed :
        (r : Round) (again : World → Option World)
        → InRound P r
        → ((w : World) → P w → InSome P (again w))
        → InSome P (after_round r again)
    unfolding after_round
    after_round-Closed (halt w) again p k = p
    after_round-Closed (more w) again p k = k w p

    rounds-Closed : (fuel : ℕ) (w : World) → P w → InSome P (rounds env ai now fuel w)
    unfolding rounds
    rounds-Closed zero w p = tt
    rounds-Closed (suc fuel) w p =
        after_round-Closed (action_round env ai now w) _ (action_round-Closed w p)
          (rounds-Closed fuel)

  and_then-Closed :
      (o : Option World) (next : World → Option World)
      → InSome P o
      → ((w : World) → P w → InSome P (next w))
      → InSome P (and_then o next)
  unfolding and_then
  and_then-Closed none next p k = tt
  and_then-Closed (some w) next p k = k w p

  dispatch_all-Closed :
      (ais : List ActionInfo) (fuel : ℕ) (w : World)
      → All Q ais
      → P w
      → InSome P (dispatch_all env now fuel ais w)
  unfolding dispatch_all
  dispatch_all-Closed [] fuel w q p = p
  dispatch_all-Closed (ai ∷ ais) fuel w (q, qs) p =
      and_then-Closed (rounds env ai now fuel w) _ (rounds-Closed ai q fuel w p)
        (λ w' p'. dispatch_all-Closed ais fuel w' qs p')

  pub dispatch-Closed :
      (fuel : ℕ) (w w' : World)
      → All Q (load_actions env w)
      → dispatch env now fuel w ≡ some w'
      → P w
      → P w'
  unfolding dispatch
  dispatch-Closed fuel w w' q e p =
      subst (InSome P) e (dispatch_all-Closed (load_actions env w) fuel w q p)
