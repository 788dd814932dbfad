-- ===== src/Store/Soundness.antt =====
-- The invariant of the deliveries table of internal/store, and the row updates of deliveries.go.
use sonata.Prelude.{ℕ, ◌≤◌, ◌<◌, ◌≡◌, ◌≢◌, ◌⊎◌, Bool, true, arith, Text, none, All}
use sonata.Store.Types.{
  State, pending, claimed, failed, filtered, dead, cancelled, Reason, Delivery, Db,
}
use sonata.Store.Deliveries.{
  in_state, waiting, claim_row, resolve_row, pgid_row, fail_row, replay_row, cancel_row, orphan_row,
}
use sonata.Store.Messages.{complete_row, pending_delivery}
use sonata.Store.Unique.{Unique}

abbrev pub IsTerminal : State → Type 0
IsTerminal filtered = Unit {0}
IsTerminal dead = Unit {0}
IsTerminal cancelled = Unit {0}
IsTerminal _ = ⊥

-- What holds of a row between two transactions.
pub record RowOk (d : Delivery) : Type 0 where
  -- Only a claimed row has a live process group.
  pub group : (d.pgid ≡ none) ⊎ (d.state ≡ claimed)
  -- A row that waits for a retry has its gate; without one no query would find it.
  pub gate : d.state ≡ failed → d.not_before ≢ none
  -- A claimed row has the version it runs under, and counts the attempt.
  pub pinned :
      d.state ≡ claimed → (d.action_version ≢ none) × (1 ≤ d.attempt) × (d.not_before ≡ none)
  -- A pending row starts from nothing.
  pub fresh :
      d.state ≡ pending
      → (d.attempt ≡ 0) × (d.action_version ≡ none) × (d.error ≡ none) × (d.not_before ≡ none)

pub record IsSound (db : Db) : Type 0 where
  pub rows : All RowOk db.deliveries
  pub unique : Unique db.deliveries
  pub below : All (λ d. d.id < db.next_id) db.deliveries

pub claim_row-RowOk :
    (v now : ℕ) (d : Delivery) → waiting d ≡ true → RowOk d → RowOk (claim_row v now d)
claim_row-RowOk v now d w h = ground arith

pub resolve_row-RowOk :
    (s : State) (r : Reason) (now : ℕ) (d : Delivery)
    → IsTerminal s
    → RowOk d
    → RowOk (resolve_row s r now d)
resolve_row-RowOk s r now d t h = ground arith

pub pgid_row-RowOk :
    (g : ℕ) (d : Delivery) → in_state claimed d ≡ true → RowOk d → RowOk (pgid_row g d)
pgid_row-RowOk g d c h = ground arith

pub fail_row-RowOk :
    (b : Bool) (g : ℕ) (r : Reason) (t : Text) (now : ℕ) (d : Delivery)
    → RowOk d
    → RowOk (fail_row b g r t now d)
fail_row-RowOk b g r t now d h = ground arith

pub replay_row-RowOk : (d : Delivery) → in_state dead d ≡ true → RowOk d → RowOk (replay_row d)
replay_row-RowOk d c h = ground arith

pub cancel_row-RowOk :
    (r : Reason) (now : ℕ) (d : Delivery) → waiting d ≡ true → RowOk d → RowOk (cancel_row r now d)
cancel_row-RowOk r now d w h = ground arith

pub orphan_row-RowOk : (now : ℕ) (d : Delivery) → RowOk d → RowOk (orphan_row now d)
orphan_row-RowOk now d h = ground arith

pub complete_row-RowOk :
    (t : Text) (now : ℕ) (d : Delivery) → RowOk d → RowOk (complete_row t now d)
complete_row-RowOk t now d h = ground arith

pub pending_delivery-RowOk : (i m : ℕ) (a : Text) → RowOk (pending_delivery i m a)
pending_delivery-RowOk i m a = ground arith
