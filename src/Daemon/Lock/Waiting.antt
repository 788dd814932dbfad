-- ===== src/Daemon/Lock/Waiting.antt =====
-- The loop of AcquireWait of internal/daemon/lock.go.
use mathlib.Core.Path.{subst}
use native.Mathlib.Nat.{mul-suc}
use sonata.Prelude.{
  ℕ, zero, suc, ◌+◌, ◌*◌, ◌≤◌, ◌<◌, ◌⊎◌, ◌∙◌, ◌≡◌, refl, Bool, true, false, Option, none, some,
  Result, ok, err, ltb, lt→ltb, arith, inl, inr,
}
use sonata.Daemon.Lock.{
  LockError, open_failed, locked, flock_failed, timed_out, Attempts, acquire, pause, after_attempt,
  attempts, acquire_wait,
}

-- The n attempts from the k-th on find the lock held, none after the deadline.
abbrev pub LockedFor : Attempts → ℕ → ℕ → ℕ → Type 0
LockedFor os deadline k zero = Unit
LockedFor os deadline k (suc n) =
    (acquire os k ≡ err locked)
    × (ltb deadline (os.clock k) ≡ false)
    × LockedFor os deadline (suc k) n

-- The k-th attempt ends the wait with `r`, whatever would come after it.
abbrev pub EndsWith : Attempts → ℕ → ℕ → Result LockError (Unit {0}) → Type 0
EndsWith os deadline k r = after_attempt (acquire os k) (ltb deadline (os.clock k)) none ≡ some r

-- The wait from the k-th attempt on ends at one of its attempts.
abbrev pub Waits : Attempts → ℕ → ℕ → Option (Result LockError (Unit {0})) → Type 0
Waits os deadline k o =
    (n : ℕ) × (r : Result LockError (Unit {0})) × (o ≡ some r)
    × LockedFor os deadline k n
    × EndsWith os deadline (k + n) r

attempt_cases :
    (r : Result LockError (Unit {0})) (late : Bool) (rest : Option (Result LockError (Unit {0})))
    → ((r ≡ err locked) × (late ≡ false) × (after_attempt r late rest ≡ rest))
      ⊎ ((q : Result LockError (Unit {0})) × (after_attempt r late rest ≡ some q)
          × (after_attempt r late none ≡ some q))
unfolding after_attempt
attempt_cases (ok u) late rest = inr (ok u, refl, refl)
attempt_cases (err locked) true rest = inr (err timed_out, refl, refl)
attempt_cases (err locked) false rest = inl (refl, refl, refl)
attempt_cases (err open_failed) late rest = inr (err open_failed, refl, refl)
attempt_cases (err flock_failed) late rest = inr (err flock_failed, refl, refl)
attempt_cases (err timed_out) late rest = inr (err timed_out, refl, refl)

module _ (os : Attempts) (deadline : ℕ)
    (sleeps : (k : ℕ) → os.clock k + pause ≤ os.clock (suc k)) where
  here_at :
      (k : ℕ) (rest : Option (Result LockError (Unit {0}))) (q : Result LockError (Unit {0}))
      → after_attempt (acquire os k) (ltb deadline (os.clock k)) rest ≡ some q
      → EndsWith os deadline k q
      → Waits os deadline k (after_attempt (acquire os k) (ltb deadline (os.clock k)) rest)
  here_at k rest q e f =
      let same_attempt : k ≡ k + 0 = omega arith in
      (0, q, e, tt, subst (λ j. EndsWith os deadline j q) same_attempt f)

  attempts-Waits :
      (fuel k : ℕ)
      → deadline < os.clock k + pause * fuel
      → Waits os deadline k (attempts os deadline k (suc fuel))
  unfolding attempts
  attempts-Waits zero k l =
      let late = lt→ltb deadline (os.clock k) (ground arith) in
      elim (attempt_cases (acquire os k) (ltb deadline (os.clock k)) none) [
        | inr (q, e, f) ↦ here_at k none q e f
        | inl (held, early, e) ↦ cc (late, early)
      ]
  attempts-Waits (suc fuel) k l =
      let rest = attempts os deadline (suc k) (suc fuel) in
      elim (attempt_cases (acquire os k) (ltb deadline (os.clock k)) rest) [
        | inr (q, e, f) ↦ here_at k rest q e f
        | inl (held, early, e) ↦
            let next = sleeps k in
            let product = mul-suc pause fuel in
            let (n, r, e', h, f) = attempts-Waits fuel (suc k) (omega (arith, l, next, product)) in
            let later : suc k + n ≡ k + suc n = omega arith in
            (suc n, r, e ∙ e', (held, early, h), subst (λ j. EndsWith os deadline j r) later f)
      ]

-- Where the clock does not go back and a sleep lasts at least its duration: AcquireWait with more
-- attempts than pauses fit into its timeout returns. The attempts before the last one have found the
-- lock held, each before the deadline; the last one takes the lock, fails otherwise, or finds the
-- lock held after the deadline, and gives the result.
pub acquire_wait-Waits :
    (os : Attempts) (start timeout fuel : ℕ)
    → ((k : ℕ) → os.clock k + pause ≤ os.clock (suc k))
    → start ≤ os.clock 0
    → timeout < pause * fuel
    → Waits os (start + timeout) 0 (acquire_wait os start timeout (suc fuel))
unfolding acquire_wait
acquire_wait-Waits os start timeout fuel sleeps before enough =
    attempts-Waits os (start + timeout) sleeps fuel 0 (omega (arith, before, enough))
