-- ===== src/Daemon/Idle/Expiry.antt =====
-- The idle tracker of internal/daemon/daemon.go when nothing happens.
use mathlib.Core.Path.{subst}
use native.Mathlib.Nat.{mul-suc}
use sonata.Prelude.{
  sym, ℕ, zero, suc, ◌+◌, ◌*◌, ◌≤◌, ◌≡◌, refl, Bool, true, false, List, [], ◌∷◌, ltb, arith,
  Bool-cases, inl, inr, ◌||◌, not,
}
use sonata.Daemon.Idle.{IdleTracker, Event, ticked, tick, react, react_all, interval}

-- The next ticks of the ticker, with nothing busy.
abbrev pub quiet_ticks : (from step n : ℕ) → List Event
quiet_ticks from step zero = []
quiet_ticks from step (suc n) = ticked (from + step) false ∷ quiet_ticks (from + step) step n

tick-closed : (u : ℕ) (busy : Bool) (t : IdleTracker) → t.closed ≡ true → tick u busy t ≡ t
unfolding tick
tick-closed u busy t c = rw c refl

or_true : (b : Bool) → (b || true) ≡ true
or_true b = ground arith

tick_early :
    (u : ℕ) (busy : Bool) (t : IdleTracker) → ltb u (t.last + t.timeout) ≡ true → tick u busy t ≡ t
unfolding tick
tick_early u busy t e = rw (e, or_true (t.closed || not t.watching)) refl

tick_fires :
    (u : ℕ) (t : IdleTracker)
    → t.watching ≡ true
    → ltb u (t.last + t.timeout) ≡ false
    → (tick u false t).closed ≡ true
unfolding tick
tick_fires u t w e = ground arith

closed-stays :
    (from step n : ℕ) (t : IdleTracker)
    → t.closed ≡ true
    → (react_all (quiet_ticks from step n) t).closed ≡ true
unfolding react_all react
closed-stays from step zero t c = c
closed-stays from step (suc n) t c =
    closed-stays (from + step) step n (tick (from + step) false t)
      (cc (c, tick-closed (from + step) false t c))

quiet_ticks-closed :
    (from step n : ℕ) (t : IdleTracker)
    → t.watching ≡ true
    → t.last + t.timeout ≤ from + step * suc n
    → (react_all (quiet_ticks from step (suc n)) t).closed ≡ true
unfolding react_all react
quiet_ticks-closed from step zero t w l = tick_fires (from + step) t w (ground arith)
quiet_ticks-closed from step (suc n) t w l =
    elim (Bool-cases (ltb (from + step) (t.last + t.timeout))) [
      | inl e ↦
          subst (λ x. (react_all (quiet_ticks (from + step) step (suc n)) x).closed ≡ true)
            (sym (tick_early (from + step) false t e))
            (quiet_ticks-closed (from + step) step n t w
              (let sum = mul-suc step (suc n) in omega (arith, l, sum)))
      | inr e ↦ closed-stays (from + step) step (suc n) _ (tick_fires (from + step) t w e)
    ]

interval-enough : (timeout : ℕ) → timeout ≤ interval timeout * 5
unfolding interval
interval-enough timeout = ground arith

-- A tracker that watches, and whose last activity is no later than the next tick, has fired when six
-- ticks of its ticker, from any time on, have found nothing busy and no touch has come between them.
pub quiet_ticks-expire :
    (t : IdleTracker) (from : ℕ)
    → t.watching ≡ true
    → t.last ≤ from + interval t.timeout
    → (react_all (quiet_ticks from (interval t.timeout) 6) t).closed ≡ true
quiet_ticks-expire t from w l =
    quiet_ticks-closed from (interval t.timeout) 5 t w
      (let enough = interval-enough t.timeout in omega (arith, enough, l))
