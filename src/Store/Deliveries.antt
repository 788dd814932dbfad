-- ===== src/Store/Deliveries.antt =====
-- internal/store/deliveries.go: the deliveries table.
-- Each SQL statement is a test on rows with the row that it writes.
use sonata.Prelude.{
  ℕ, ◌+◌, Bool, false, ◌&&◌, ◌||◌, Option, none, some, [], ◌∷◌, Text, same, Result, ok, err, ◌==◌,
  if◌then◌else◌, count, find?, update,
}
use sonata.Store.Types.{
  State, pending, claimed, failed, dead, cancelled, is_state, Reason, no_reason, daemon_restarted,
  Delivery, Db, StoreError, not_found, not_dead, unexpected_state, Env, Store, write,
}

-- NULLIF(?, '').
abbrev pub non_empty : Text → Option Text
non_empty [] = none
non_empty (c ∷ t) = some (c ∷ t)

abbrev pub reason_or_null : Reason → Option Reason
reason_or_null no_reason = none
reason_or_null r = some r

-- A comparison with NULL holds of no row.
abbrev pub holds_of {ℓ} : {A : Type ℓ} → (A → Bool) → Option A → Bool
holds_of p none = false
holds_of p (some a) = p a

abbrev pub has_id : ℕ → Delivery → Bool
has_id id d = d.id == id

abbrev pub in_state : State → Delivery → Bool
in_state s d = is_state d.state s

abbrev pub waiting : Delivery → Bool
waiting d = in_state pending d || in_state failed d

abbrev pub claimable : ℕ → Delivery → Bool
claimable id d = has_id id d && waiting d

abbrev pub running : ℕ → Delivery → Bool
running id d = has_id id d && in_state claimed d

abbrev pub replayable : ℕ → Delivery → Bool
replayable id d = has_id id d && in_state dead d

abbrev pub is_active : Delivery → Bool
is_active d = in_state pending d || in_state failed d || in_state claimed d

-- `UPDATE deliveries SET f WHERE p`, with the number of rows affected.
unfoldable pub exec_update : (Delivery → Bool) → (Delivery → Delivery) → Db → ℕ × Db
exec_update p f db = (count p db.deliveries, record db { deliveries = update p f db.deliveries })

-- mustAffect: no row affected is an error.
abbrev pub must_affect : ℕ × Db → Result StoreError (Unit {0} × Db)
must_affect (n, db) = if n == 0 then err unexpected_state else ok (tt, db)

-- ClaimDelivery.
abbrev pub claim_row : ℕ → ℕ → Delivery → Delivery
claim_row version now d = record d {
  state = claimed;
  action_version = some version;
  attempt = d.attempt + 1;
  claimed_at = some now;
  not_before = none;
}

unfoldable pub claim_delivery : Env → ℕ → ℕ → ℕ → Store → Result StoreError (Unit {0}) × Store
claim_delivery env id version now =
    write env λ db. must_affect (exec_update (claimable id) (claim_row version now) db)

-- ResolveDelivery.
abbrev pub resolve_row : State → Reason → ℕ → Delivery → Delivery
resolve_row state reason now d = record d {
  state = state;
  error = reason_or_null reason;
  completed_at = some now;
  pgid = none;
}

unfoldable pub resolve_delivery :
    Env → ℕ → State → Reason → ℕ → Store → Result StoreError (Unit {0}) × Store
resolve_delivery env id state reason now =
    write env λ db. must_affect (exec_update (has_id id) (resolve_row state reason now) db)

-- SetDeliveryPgid: no row affected is no error.
abbrev pub pgid_row : ℕ → Delivery → Delivery
pgid_row pgid d = record d { pgid = some pgid }

unfoldable pub set_delivery_pgid : Env → ℕ → ℕ → Store → Result StoreError (Unit {0}) × Store
set_delivery_pgid env id pgid =
    write env λ db. ok (tt, (exec_update (running id) (pgid_row pgid) db).1)

-- FailDelivery.
abbrev pub fail_row : Bool → ℕ → Reason → Text → ℕ → Delivery → Delivery
fail_row is_dead not_before reason stderr_tail now d = record d {
  state = if is_dead then dead else failed;
  not_before = if is_dead then none else some not_before;
  error = some reason;
  stderr_tail = non_empty stderr_tail;
  completed_at = some now;
  pgid = none;
}

unfoldable pub fail_delivery :
    Env → ℕ → Bool → ℕ → Reason → Text → ℕ → Store → Result StoreError (Unit {0}) × Store
fail_delivery env id is_dead not_before reason stderr_tail now = write env λ db.
    must_affect (exec_update (running id) (fail_row is_dead not_before reason stderr_tail now) db)

-- ReplayDelivery.
abbrev pub replay_row : Delivery → Delivery
replay_row d = record d {
  state = pending;
  attempt = 0;
  error = none;
  stderr_tail = none;
  not_before = none;
  action_version = none;
  claimed_at = none;
  completed_at = none;
}

-- getDelivery.
unfoldable pub find_delivery : ℕ → Db → Option Delivery
find_delivery id db = find? (has_id id) db.deliveries

-- No row replayed: a missing one is told from one in another state.
replay_refused : Option Delivery → StoreError
replay_refused none = not_found
replay_refused (some d) = not_dead d.state

unfoldable pub read_back : Option Delivery → Db → Result StoreError (Delivery × Db)
read_back none db = err not_found
read_back (some d) db = ok (d, db)

unfoldable pub replayed : ℕ → ℕ × Db → Result StoreError (Delivery × Db)
unfolding replay_refused read_back find_delivery
replayed id (n, db) =
    if n == 0
    then err (replay_refused (find_delivery id db))
    else read_back (find_delivery id db) db

unfoldable pub replay_delivery : Env → ℕ → Store → Result StoreError Delivery × Store
replay_delivery env id = write env λ db. replayed id (exec_update (replayable id) replay_row db)

-- CancelDeliveries.
abbrev pub cancel_row : Reason → ℕ → Delivery → Delivery
cancel_row reason now d = record d {
  state = cancelled;
  error = some reason;
  not_before = none;
  completed_at = some now;
}

abbrev pub of_action : Text → Delivery → Bool
of_action action d = same d.action_name action

abbrev pub cancellable : Text → Delivery → Bool
cancellable action d = of_action action d && waiting d

unfoldable pub cancel_deliveries : Env → Text → Reason → ℕ → Store → Result StoreError ℕ × Store
cancel_deliveries env action reason now =
    write env λ db. ok (exec_update (cancellable action) (cancel_row reason now) db)

-- ResetOrphan: no row affected is no error.
abbrev pub orphan_row : ℕ → Delivery → Delivery
orphan_row now d = record d {
  state = failed;
  not_before = some now;
  error = some daemon_restarted;
  pgid = none;
}

unfoldable pub reset_orphan : Env → ℕ → ℕ → Store → Result StoreError (Unit {0}) × Store
reset_orphan env id now = write env λ db. ok (tt, (exec_update (running id) (orphan_row now) db).1)
