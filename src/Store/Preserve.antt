-- ===== src/Store/Preserve.antt =====
-- The writes of internal/store and the invariant of the deliveries table.
use sonata.Store.Growing.{
  Growing, write-Ends, guarded-Ends, free-Ends, replayed-Ends, completed-Growing,
  append_one-Growing,
}
use sonata.Prelude.{
  ℕ, suc, ◌<◌, ◌≡◌, refl, ap, Bool, true, arith, List, [], ◌∷◌, Text, Option, update-All, All,
  All-append,
}
use sonata.Store.Types.{State, Reason, Message, Delivery, Db, Env, Store}
use sonata.Store.Deliveries.{
  has_id, claimable, running, replayable, cancellable, exec_update, claim_row, resolve_row,
  pgid_row, fail_row, replay_row, cancel_row, orphan_row, claim_delivery, resolve_delivery,
  set_delivery_pgid, fail_delivery, replay_delivery, cancel_deliveries, reset_orphan,
}
use sonata.Store.Messages.{complete_row, pending_delivery, append_message, complete_delivery}
use sonata.Store.Writes.{with_deliveries}
use sonata.Store.Unique.{key, update-Unique, append-Unique}
use sonata.Store.Soundness.{
  IsTerminal, RowOk, IsSound, claim_row-RowOk, resolve_row-RowOk, pgid_row-RowOk, fail_row-RowOk,
  replay_row-RowOk, cancel_row-RowOk, orphan_row-RowOk, complete_row-RowOk, pending_delivery-RowOk,
}

pub with_deliveries-IsSound :
    (p : Delivery → Bool) (f : Delivery → Delivery) (db : Db)
    → ((d : Delivery) → key (f d) ≡ key d)
    → ((d : Delivery) → p d ≡ true → RowOk d → RowOk (f d))
    → IsSound db
    → IsSound (with_deliveries p f db)
with_deliveries-IsSound p f db keeps row s = record {
  rows = update-All RowOk p f db.deliveries row s.rows;
  unique = update-Unique p f keeps db.deliveries s.unique;
  below =
      update-All (λ d. d.id < db.next_id) p f db.deliveries
        (λ d _ h. rw (ap (λ (k : ℕ × Option ℕ × Text). k.0) (keeps d)) h) s.below;
}

pub All-below_suc :
    (n : ℕ) (ds : List Delivery) → All (λ d. d.id < n) ds → All (λ d. d.id < suc n) ds
All-below_suc n [] h = tt
All-below_suc n (d ∷ ds) h = (omega arith, All-below_suc n ds h.1)

IsSound-Growing : Growing IsSound
IsSound-Growing = record {
  messaged = λ db ms s. record { rows = s.rows; unique = s.unique; below = s.below };
  inserted = λ db m name free s. record {
    rows =
        All-append RowOk db.deliveries (pending_delivery db.next_id m name ∷ []) s.rows
          (pending_delivery-RowOk _ m name, tt);
    unique = append-Unique (pending_delivery db.next_id m name) db.deliveries free s.unique;
    below =
        All-append (λ x. x.id < suc db.next_id) db.deliveries
          (pending_delivery db.next_id m name ∷ []) (All-below_suc db.next_id db.deliveries s.below)
          (omega arith, tt);
  };
}

-- The writes of the deliveries table, as one type.
pub data Operation : Type 0 where
  claims : (id version now : ℕ) → Operation
  resolves : (id : ℕ) (state : State) → IsTerminal state → (reason : Reason) (now : ℕ) → Operation
  sets_pgid : (id pgid : ℕ) → Operation
  fails :
      (id : ℕ) (is_dead : Bool) (gate : ℕ) (reason : Reason) (stderr_tail : Text) (now : ℕ)
      → Operation
  replays : (id : ℕ) → Operation
  cancels : (action : Text) (reason : Reason) (now : ℕ) → Operation
  resets : (id now : ℕ) → Operation
  completes : (id : ℕ) (stderr_tail : Text) (outputs : List Message) (now : ℕ) → Operation
  appends : Message → Operation

unfoldable pub perform : Env → Operation → Store → Store
perform env (claims id version now) s = (claim_delivery env id version now s).1
perform env (resolves id state t reason now) s = (resolve_delivery env id state reason now s).1
perform env (sets_pgid id pgid) s = (set_delivery_pgid env id pgid s).1
perform env (fails id b gate reason tail now) s = (fail_delivery env id b gate reason tail now s).1
perform env (replays id) s = (replay_delivery env id s).1
perform env (cancels action reason now) s = (cancel_deliveries env action reason now s).1
perform env (resets id now) s = (reset_orphan env id now s).1
perform env (completes id tail outputs now) s = (complete_delivery env id tail outputs now s).1
perform env (appends m) s = (append_message env m s).1

-- Every write of the deliveries table, committed or not, keeps the invariant: the keys stay unique
-- and below the next id, only a claimed row has a process group, a row that waits for a retry has
-- a gate, a claimed row has its version and a counted attempt, and a pending row is fresh.
pub perform-IsSound :
    (env : Env) (op : Operation) (s : Store) → IsSound s.db → IsSound (perform env op s).db
unfolding perform claim_delivery resolve_delivery set_delivery_pgid fail_delivery replay_delivery
    cancel_deliveries reset_orphan complete_delivery append_message exec_update
perform-IsSound env (claims id version now) s h =
    guarded-Ends IsSound env (claimable id) (claim_row version now) s h (
      with_deliveries-IsSound _ _ s.db (λ d. refl)
        (λ d p. claim_row-RowOk version now d (ground arith)) h)
perform-IsSound env (resolves id state t reason now) s h =
    guarded-Ends IsSound env (has_id id) (resolve_row state reason now) s h (
      with_deliveries-IsSound _ _ s.db (λ d. refl) (λ d p. resolve_row-RowOk state reason now d t)
        h)
perform-IsSound env (sets_pgid id pgid) s h =
    free-Ends IsSound env (running id) (pgid_row pgid) s h
      (with_deliveries-IsSound _ _ s.db (λ d. refl) (λ d p. pgid_row-RowOk pgid d (ground arith)) h)
perform-IsSound env (fails id b gate reason tail now) s h =
    guarded-Ends IsSound env (running id) (fail_row b gate reason tail now) s h (
      with_deliveries-IsSound _ _ s.db (λ d. refl) (λ d p. fail_row-RowOk b gate reason tail now d)
        h)
perform-IsSound env (replays id) s h = write-Ends IsSound env _ s h (
    replayed-Ends IsSound id _ _ (
      with_deliveries-IsSound (replayable id) replay_row s.db (λ d. refl)
        (λ d p. replay_row-RowOk d (ground arith)) h))
perform-IsSound env (cancels action reason now) s h = write-Ends IsSound env _ s h (
    with_deliveries-IsSound (cancellable action) (cancel_row reason now) s.db (λ d. refl)
      (λ d p. cancel_row-RowOk reason now d (ground arith)) h)
perform-IsSound env (resets id now) s h =
    free-Ends IsSound env (running id) (orphan_row now) s h
      (with_deliveries-IsSound _ _ s.db (λ d. refl) (λ d p. orphan_row-RowOk now d) h)
perform-IsSound env (completes id tail outputs now) s h = write-Ends IsSound env _ s h (
    completed-Growing IsSound IsSound-Growing env id tail outputs now s.db (
      with_deliveries-IsSound _ (complete_row tail now) s.db (λ d. refl)
        (λ d _ k. complete_row-RowOk tail now d k) h))
perform-IsSound env (appends m) s h =
    write-Ends IsSound env _ s h (append_one-Growing IsSound IsSound-Growing env m s.db h)
