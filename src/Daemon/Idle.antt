-- ===== src/Daemon/Idle.antt =====
-- internal/daemon/daemon.go: the idle tracker. A time is a number of nanoseconds on the monotonic
-- clock; the goroutine `watch` and its callers are a sequence of touches and of ticks, each tick with
-- what the busy probe answers at it.
pub mod Quiet
pub mod Expiry
pub mod Exit
use sonata.Prelude.{
  ℕ, zero, suc, ◌+◌, ◌*◌, ◌/◌, Bool, true, false, not, ◌&&◌, ◌||◌, List, [], ◌∷◌, ltb, leb,
  if◌then◌else◌,
}
use sonata.Prelude.Int.{ℤ, pos, negsuc, pos_part, ltb_ℤ}

-- `closed` is the channel of `expired`.
pub record IdleTracker : Type 0 where
  pub timeout : ℕ
  pub watching : Bool
  pub last : ℕ
  pub closed : Bool

-- newIdleTracker: a timeout that is not positive starts no watch.
unfoldable pub new_idle_tracker : ℤ → ℕ → IdleTracker
new_idle_tracker timeout now = record {
  timeout = pos_part timeout;
  watching = ltb_ℤ (pos 0) timeout;
  last = now;
  closed = false;
}

unfoldable pub touch : ℕ → IdleTracker → IdleTracker
touch now t = record t { last = now }

-- 100 ms.
abbrev pub shortest_interval : ℕ
shortest_interval = 100000000

-- The interval of the ticker.
unfoldable pub interval : ℕ → ℕ
interval timeout = if ltb (timeout / 4) shortest_interval then shortest_interval else timeout / 4

-- One turn of the loop of watch; the loop has returned once the channel is closed.
unfoldable pub tick : ℕ → Bool → IdleTracker → IdleTracker
unfolding touch
tick now busy t =
    if t.closed || not t.watching || ltb now (t.last + t.timeout)
    then t
    else if busy
    then touch now t
    else record t { closed = true }

pub data Event : Type 0 where
  touched : (now : ℕ) → Event
  ticked : (now : ℕ) (busy : Bool) → Event

unfoldable pub react : Event → IdleTracker → IdleTracker
unfolding touch tick
react (touched now) t = touch now t
react (ticked now busy) t = tick now busy t

unfoldable pub react_all : List Event → IdleTracker → IdleTracker
unfolding react
react_all [] t = t
react_all (e ∷ es) t = react_all es (react e t)

-- The probe that Run gives to the tracker: a request is being served, or the scheduler is busy. The
-- two are loads at two moments, InFlight first.
unfoldable pub probe : ℕ → Bool → Bool
probe in_flight busy = ltb 0 in_flight || busy
