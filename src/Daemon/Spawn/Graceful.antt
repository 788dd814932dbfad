-- ===== src/Daemon/Spawn/Graceful.antt =====
-- internal/daemon/spawn.go: how Stop ends.
use mathlib.Core.Path.{subst}
use native.Mathlib.Nat.{mul-suc}
use sonata.Prelude.{
  ℕ, zero, suc, ◌+◌, ◌*◌, ◌≤◌, ◌⊎◌, ◌≡◌, ◌≢◌, ◌∙◌, ap, refl, Bool, true, false, Option, some, [],
  ◌∷◌, ok, err, ltb, arith, inl, inr, Bool-cases,
}
use sonata.Prelude.Int.{ℤ}
use sonata.Daemon.Run.{Removal, removed, absent, refused}
use sonata.Daemon.Spawn.{
  ready_poll_interval, Kill, sent, esrch, denied, sigterm, sigkill, remove_socket, cleared,
  not_signalled, Stopping, Stopped, gone, wait_gone, killed, after_wait, after_term, stop,
}

module _ (pid : ℤ) (os : Stopping) (deadline : ℕ) where
  -- The n rounds from the k-th on are before the deadline, and find the process or the socket.
  abbrev pub Lingers : ℕ → ℕ → Type 0
  Lingers k zero = Unit
  Lingers k (suc n) =
      (ltb (os.clock k) deadline ≡ true) × (gone pid os k ≡ false) × Lingers (suc k) n

  -- In the k-th round, before the deadline, neither the process nor the socket is there.
  abbrev pub GoneAt : ℕ → Type 0
  GoneAt k = (ltb (os.clock k) deadline ≡ true) × (gone pid os k ≡ true)

  -- The k-th round finds the deadline passed.
  abbrev pub LateAt : ℕ → Type 0
  LateAt k = ltb (os.clock k) deadline ≡ false

  abbrev EndsAt : Option Bool → ℕ → Type 0
  EndsAt o k = ((o ≡ some true) × GoneAt k) ⊎ ((o ≡ some false) × LateAt k)

  -- The loop from the k-th round on ends after n rounds more.
  abbrev WaitsGone : ℕ → Option Bool → Type 0
  WaitsGone k o = (n : ℕ) × Lingers k n × EndsAt o (k + n)

  ends_here : (k : ℕ) (o : Option Bool) → EndsAt o k → WaitsGone k o
  ends_here k o h =
      let same_round : k ≡ k + 0 = omega arith in (0, tt, subst (λ j. EndsAt o j) same_round h)

  wait_gone-WaitsGone :
      ((k : ℕ) → os.clock k + ready_poll_interval ≤ os.clock (suc k))
      → (fuel k : ℕ) → deadline ≤ os.clock k + ready_poll_interval * fuel
      → WaitsGone k (wait_gone pid os deadline k (suc fuel))
  unfolding wait_gone
  wait_gone-WaitsGone sleeps zero k l =
      let late : ltb (os.clock k) deadline ≡ false = ground arith in
      rw late (ends_here k (some false) (inr (refl, late)))
  wait_gone-WaitsGone sleeps (suc fuel) k l = elim (Bool-cases (ltb (os.clock k) deadline)) [
    | inr late ↦ rw late (ends_here k (some false) (inr (refl, late)))
    | inl early ↦ elim (Bool-cases (gone pid os k)) [
      | inl out ↦ rw (early, out) (ends_here k (some true) (inl (refl, (early, out))))
      | inr still ↦
          let next = sleeps k in
          let product = mul-suc ready_poll_interval fuel in
          let (n, rounds, end) =
            wait_gone-WaitsGone sleeps fuel (suc k) (omega (arith, l, next, product)) in
          let later : suc k + n ≡ k + suc n = omega arith in
          let o = wait_gone pid os deadline (suc k) (suc fuel) in
          rw (early, still) (suc n, (early, still, rounds), subst (λ j. EndsAt o j) later end)
    ]
  ]

killed-ok :
    (kill : Kill) (remove : Removal)
    → kill ≢ denied
    → remove ≢ refused
    → killed kill remove ≡ (sigterm ∷ sigkill ∷ remove_socket ∷ [], true, ok tt)
unfolding killed cleared
killed-ok denied r k m = absurd (k refl)
killed-ok sent refused k m = absurd (m refl)
killed-ok sent removed k m = refl
killed-ok sent absent k m = refl
killed-ok esrch refused k m = absurd (m refl)
killed-ok esrch removed k m = refl
killed-ok esrch absent k m = refl

module _ (pid : ℤ) (os : Stopping) where
  -- How Stop can end, with its result.
  abbrev pub Stops : ℕ → Option Stopped → Type 0
  Stops deadline o =
      ((os.term ≡ esrch) × (o ≡ some (sigterm ∷ [], false, ok tt)))
      ⊎ (((os.term ≡ denied) × (o ≡ some (sigterm ∷ [], false, err not_signalled)))
          ⊎ ((os.term ≡ sent)
              × ((n : ℕ) × Lingers pid os deadline 0 n
                  × ((GoneAt pid os deadline n × (o ≡ some (sigterm ∷ [], false, ok tt)))
                      ⊎ (LateAt pid os deadline n × (o ≡ some (killed os.kill os.remove)))))))

  signalled-Stops :
      (deadline : ℕ) (o : Option Bool)
      → WaitsGone pid os deadline 0 o
      → (term : Kill) → os.term ≡ term
      → Stops deadline (after_term term (after_wait os o))
  unfolding after_term after_wait
  signalled-Stops deadline o h esrch e = inl (e, refl)
  signalled-Stops deadline o h denied e = inr (inl (e, refl))
  signalled-Stops deadline o (n, rounds, inl (out, at)) sent e =
      let same_round : 0 + n ≡ n = omega arith in
      inr (
        inr
          (e, (n, rounds, inl (subst (λ j. GoneAt pid os deadline j) same_round at, rw out refl))))
  signalled-Stops deadline o (n, rounds, inr (out, at)) sent e =
      let same_round : 0 + n ≡ n = omega arith in
      inr (
        inr
          (e, (n, rounds, inr (subst (λ j. LateAt pid os deadline j) same_round at, rw out refl))))

  -- Where a sleep lasts at least its 25 ms, Stop with more rounds than sleeps fit into its timeout
  -- returns. No process to signal is success, and a signal that is refused an error. Otherwise it
  -- has waited while the process or the socket was there; it reports success in a round before the
  -- deadline in which neither is, and kills the process and removes the socket in one past it.
  pub stop-Stops :
      (start timeout fuel : ℕ)
      → ((k : ℕ) → os.clock k + ready_poll_interval ≤ os.clock (suc k))
      → start ≤ os.clock 0
      → timeout ≤ ready_poll_interval * fuel
      → Stops (start + timeout) (stop pid os start timeout (suc fuel))
  unfolding stop
  stop-Stops start timeout fuel sleeps before enough =
      signalled-Stops (start + timeout) (wait_gone pid os (start + timeout) 0 (suc fuel))
        (wait_gone-WaitsGone pid os (start + timeout) sleeps fuel 0 (omega (arith, before, enough)))
        os.term refl

  -- Where a sleep lasts at least its 25 ms and there is fuel for the loop, SIGTERM was delivered, and
  -- there is a file at the socket's path in each round, whether or not the process lives: Stop goes
  -- on to SIGKILL, which is no error if the process is gone by then; unless that is refused it
  -- removes the file, whoever has made it, and unless that is refused too it reports the kill and
  -- no error.
  pub stop-removes :
      (start timeout fuel : ℕ)
      → ((k : ℕ) → os.clock k + ready_poll_interval ≤ os.clock (suc k))
      → start ≤ os.clock 0
      → timeout ≤ ready_poll_interval * fuel
      → os.term ≡ sent
      → ((k : ℕ) → os.socket k ≡ true)
      → os.kill ≢ denied
      → os.remove ≢ refused
      → stop pid os start timeout (suc fuel)
        ≡ some (sigterm ∷ sigkill ∷ remove_socket ∷ [], true, ok tt)
  unfolding gone
  stop-removes start timeout fuel sleeps before enough term stays kills removes =
      let ends = killed-ok os.kill os.remove kills removes in
      elim (stop-Stops start timeout fuel sleeps before enough) [
        | inl (e, o) ↦ cc (e, term)
        | inr (inl (e, o)) ↦ cc (e, term)
        | inr (inr (e, (n, rounds, inr (late, o)))) ↦ o ∙ ap some ends
        | inr (inr (e, (n, rounds, inl (out, o)))) ↦ let there = stays n in absurd (ground arith)
      ]
