-- ===== src/Daemon/Idle/Exit.antt =====
-- The idle tracker of internal/daemon/daemon.go beside the store. Its probe loads InFlight first and
-- then, if that is 0, Busy: the daemon may take steps between the two loads.
use sonata.Prelude.{ℕ, ◌≤◌, ◌≡◌, refl, false, List, [], ◌∷◌, length, arith}
use sonata.Store.Queries.{count_active}
use sonata.Store.Soundness.{IsSound}
use sonata.Scheduler.State.{SchedEnv, World, busy}
use sonata.Daemon.Steps.{Daemon, sum, Reach, here, next}
use sonata.Daemon.Busy.{started, Reach-count_active}
use sonata.Daemon.Idle.{probe}

Reach-trans : {env : SchedEnv} {d e f : Daemon} → Reach env d e → Reach env e f → Reach env d f
Reach-trans r here = r
Reach-trans r (next q s) = next (Reach-trans r q) s

none_owed : (owed : List ℕ) → length owed ≤ 0 → owed ≡ []
none_owed [] h = refl
none_owed (n ∷ owed) h = absurd (omega (arith, h))

-- Whatever steps the daemon takes from its start on a sound database to the first load of the probe,
-- and then to the second, where every handler that has an announcement to make is a request being
-- served at the first: if the probe says that nothing is busy, no request was being served and no
-- announcement owed at the first load, and the active deliveries at the second are at most those
-- that handlers have committed in between and have yet to announce.
pub probe-idle :
    (env : SchedEnv) (w : World) (d e : Daemon) (in_flight : ℕ)
    → IsSound w.store.db
    → Reach env (started w) d
    → Reach env d e
    → length d.owed ≤ in_flight
    → probe in_flight (busy e.world) ≡ false
    → (in_flight ≡ 0) × (d.owed ≡ []) × (count_active e.world.store.db ≤ sum e.owed)
unfolding probe busy
probe-idle env w d e in_flight s r q o p =
    let none : in_flight ≡ 0 = ground arith in
    let exact = (Reach-count_active env w e s (Reach-trans r q)).1 in
    (none, none_owed d.owed (omega (arith, o, none)), ground arith)
