-- ===== src/Store/Lifecycle/Refinement.antt =====
-- The writes of internal/store beside the machine of the states of a delivery.
use sonata.Prelude.{
  inl, inr, if◌then◌else◌, false, ℕ, ◌≡◌, refl, Bool, true, ◌||◌, List, [], ◌∷◌, All, and_true,
  update,
}
use sonata.Store.Types.{
  State, pending, claimed, done, failed, filtered, dead, cancelled, is_state, Reason, Delivery, Db,
  Store, Env,
}
use sonata.Store.Soundness.{IsTerminal}
use sonata.Store.Deliveries.{
  has_id, waiting, claimable, running, replayable, cancellable, claim_row, resolve_row, pgid_row,
  fail_row, replay_row, cancel_row, orphan_row, exec_update, claim_delivery, resolve_delivery,
  set_delivery_pgid, fail_delivery, replay_delivery, cancel_deliveries, reset_orphan,
}
use sonata.Store.Messages.{complete_row, append_message, complete_delivery}
use sonata.Store.Growing.{
  Growing, write-Ends, guarded-Ends, free-Ends, replayed-Ends, completed-Growing,
  append_one-Growing,
}
use sonata.Store.Preserve.{
  Operation, claims, resolves, sets_pgid, fails, replays, cancels, resets, completes, appends,
  perform,
}
use sonata.Store.Lifecycle.{
  Edge, Goes, Advances, Advances-refl, Advances-append, Moves, update-Advances,
}

leaves_waiting :
    (s u : State) → (is_state s pending || is_state s failed) ≡ true → Edge pending u → Goes s u
leaves_waiting pending u w e = inr e
leaves_waiting failed claimed w e = inr tt
leaves_waiting failed filtered w e = inr tt
leaves_waiting failed dead w e = inr tt
leaves_waiting failed cancelled w e = inr tt
leaves_waiting failed u w e = absurd e
leaves_waiting s u w e = cc w

leaves_claimed : (s u : State) → is_state s claimed ≡ true → Edge claimed u → Goes s u
leaves_claimed claimed u c e = inr e
leaves_claimed s u c e = cc c

leaves_dead : (s : State) → is_state s dead ≡ true → Goes s pending
leaves_dead dead c = inr tt
leaves_dead s c = cc c

IsTerminal-Edge : (s : State) → IsTerminal s → Edge pending s
IsTerminal-Edge filtered t = tt
IsTerminal-Edge dead t = tt
IsTerminal-Edge cancelled t = tt
IsTerminal-Edge s t = absurd t

All-Moves :
    (p : Delivery → Bool) (f : Delivery → Delivery) (ds : List Delivery)
    → ((d : Delivery) → Moves p f d)
    → All (Moves p f) ds
All-Moves p f [] m = tt
All-Moves p f (d ∷ ds) m = (m d, All-Moves p f ds m)

-- The row that is resolved waits, which NextEligible sees to.
abbrev pub Resolvable : Operation → Db → Type 0
Resolvable (resolves id state t why now) db =
    All (λ d. has_id id d ≡ true → waiting d ≡ true) db.deliveries
Resolvable _ db = Unit

-- A table after at most one change of each row, with new rows that are pending.
abbrev pub AdvancesFrom : List Delivery → Db → Type 0
AdvancesFrom rows db = Advances rows db.deliveries

AdvancesFrom-Growing : (rows : List Delivery) → Growing (AdvancesFrom rows)
AdvancesFrom-Growing rows = record {
  messaged = λ db ms h. h;
  inserted = λ db m name free h. Advances-append rows db.deliveries _ (refl, tt) h;
}

updated :
    (p : Delivery → Bool) (f : Delivery → Delivery) (rows : List Delivery)
    → ((d : Delivery) → Moves p f d)
    → Advances rows (update p f rows)
updated p f rows m = update-Advances p f rows (All-Moves p f rows m)

resolve_row-Moves :
    (id : ℕ) (state : State) (why : Reason) (now : ℕ) (ds : List Delivery)
    → IsTerminal state
    → All (λ d. has_id id d ≡ true → waiting d ≡ true) ds
    → All (Moves (has_id id) (resolve_row state why now)) ds
resolve_row-Moves id state why now [] t w = tt
resolve_row-Moves id state why now (d ∷ ds) t w = (
  (λ e. (refl, leaves_waiting d.state state (w.0 e) (IsTerminal-Edge state t))),
  resolve_row-Moves id state why now ds t w.1,
)

fail_row-Edge : (b : Bool) → Edge claimed (if b then dead else failed)
fail_row-Edge true = tt
fail_row-Edge false = tt

module _ (env : Env) (s : Store) where
  abbrev rows : List Delivery
  rows = s.db.deliveries

  abbrev From : Db → Type 0
  From = AdvancesFrom s.db.deliveries

  same_rows : From s.db
  same_rows = Advances-refl s.db.deliveries

  -- Every write of the deliveries table, committed or not, takes each row at most one edge of the
  -- state machine further and keeps the rows in their places under their keys, and adds only rows
  -- that are pending, where it is no resolution of a delivery that does not wait.
  pub perform-Advances :
      (op : Operation)
      → Resolvable op s.db
      → Advances s.db.deliveries (perform env op s).db.deliveries
  unfolding perform claim_delivery resolve_delivery set_delivery_pgid fail_delivery replay_delivery
      cancel_deliveries reset_orphan complete_delivery append_message exec_update
  perform-Advances (claims id version now) r =
      guarded-Ends From env (claimable id) (claim_row version now) s same_rows (
        updated _ _ rows (λ d p.
          (refl, leaves_waiting d.state claimed (and_true (has_id id d) (waiting d) p).1 tt)))
  perform-Advances (resolves id state t why now) r =
      guarded-Ends From env (has_id id) (resolve_row state why now) s same_rows
        (update-Advances _ _ rows (resolve_row-Moves id state why now rows t r))
  perform-Advances (sets_pgid id pgid) r =
      free-Ends From env (running id) (pgid_row pgid) s same_rows
        (updated _ _ rows (λ d p. (refl, inl refl)))
  perform-Advances (fails id b gate why tail now) r =
      guarded-Ends From env (running id) (fail_row b gate why tail now) s same_rows (
        updated _ _ rows (λ d p.
          (refl, leaves_claimed d.state _ (and_true (has_id id d) _ p).1 (fail_row-Edge b))))
  perform-Advances (replays id) r = write-Ends From env _ s same_rows (
      replayed-Ends From id _ _ (
        updated (replayable id) replay_row rows
          (λ d p. (refl, leaves_dead d.state (and_true (has_id id d) _ p).1))))
  perform-Advances (cancels action why now) r = write-Ends From env _ s same_rows (
      updated (cancellable action) (cancel_row why now) rows
        (λ d p. (refl, leaves_waiting d.state cancelled (and_true _ (waiting d) p).1 tt)))
  perform-Advances (resets id now) r =
      free-Ends From env (running id) (orphan_row now) s same_rows (
        updated _ _ rows
          (λ d p. (refl, leaves_claimed d.state failed (and_true (has_id id d) _ p).1 tt)))
  perform-Advances (completes id tail outputs now) r = write-Ends From env _ s same_rows (
      completed-Growing From (AdvancesFrom-Growing rows) env id tail outputs now s.db (
        updated (running id) (complete_row tail now) rows
          (λ d p. (refl, leaves_claimed d.state done (and_true (has_id id d) _ p).1 tt))))
  perform-Advances (appends m) r =
      write-Ends From env _ s same_rows
        (append_one-Growing From (AdvancesFrom-Growing rows) env m s.db same_rows)

-- A store after a sequence of the writes, each of which takes every delivery at most one edge of the
-- state machine further; what comes between them leaves the deliveries as they are.
pub data Evolves (env : Env) (from : Store) : Store → Type 0 where
  unchanged : Evolves env from from
  writes :
      {s : Store}
      → Evolves env from s
      → (op : Operation) → Advances s.db.deliveries (perform env op s).db.deliveries
      → Evolves env from (perform env op s)
  keeps :
      {s t : Store} → Evolves env from s → t.db.deliveries ≡ s.db.deliveries → Evolves env from t

pub perform-Evolves :
    (env : Env) (from : Store) (op : Operation) (s : Store)
    → Resolvable op s.db
    → Evolves env from s
    → Evolves env from (perform env op s)
perform-Evolves env from op s r h = writes h op (perform-Advances env s op r)
