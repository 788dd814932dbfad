-- ===== src/Daemon/Spawn/Ready.antt =====
-- internal/daemon/spawn.go: how WaitReady ends.
use mathlib.Core.Path.{subst}
use sonata.Prelude.{
  ℕ, zero, suc, ◌+◌, ◌<◌, ◌⊎◌, ◌≡◌, refl, true, false, Option, some, Result, ok, err, arith, inl,
  inr, Bool-cases, Result-cases,
}
use sonata.Api.Transport.{ClientError}
use sonata.Daemon.Spawn.{NotReady, not_ready, Probes, after_probe, wait_ready}

module _ {Health : Type 0} (os : Probes Health) where
  -- The n probes from the k-th on fail, and the context has not ended after any of them.
  abbrev pub UnreadyFor : ℕ → ℕ → Type 0
  UnreadyFor k zero = Unit
  UnreadyFor k (suc n) =
      ((e : ClientError) × (os.health k ≡ err e)) × (os.done k ≡ false) × UnreadyFor (suc k) n

  -- The k-th probe ends the wait with `r`.
  abbrev pub AnswersAt : ℕ → Result NotReady Health → Type 0
  AnswersAt k r =
      ((h : Health) × (os.health k ≡ ok h) × (r ≡ ok h))
      ⊎ ((e : ClientError) × (os.health k ≡ err e) × (os.done k ≡ true) × (r ≡ err (not_ready e)))

  abbrev pub Readies : ℕ → Option (Result NotReady Health) → Type 0
  Readies k o =
      (n : ℕ) × (r : Result NotReady Health) × (o ≡ some r) × UnreadyFor k n × AnswersAt (k + n) r

  answered :
      (k : ℕ) (r : Result NotReady Health) (o : Option (Result NotReady Health))
      → o ≡ some r
      → AnswersAt k r
      → Readies k o
  answered k r o e h =
      let same_probe : k ≡ k + 0 = omega arith in
      (0, r, e, tt, subst (λ j. AnswersAt j r) same_probe h)

  -- One probe that fails while the context goes on, before the others.
  unready :
      (k : ℕ) (x : ClientError) (o : Option (Result NotReady Health))
      → os.health k ≡ err x
      → os.done k ≡ false
      → Readies (suc k) o
      → Readies k o
  unready k x o e on (n, r, out, probes, at) =
      let later : suc k + n ≡ k + suc n = omega arith in
      (suc n, r, out, ((x, e), on, probes), subst (λ j. AnswersAt j r) later at)

  wait_ready-from :
      (n k fuel : ℕ) → os.done (k + n) ≡ true → n < fuel → Readies k (wait_ready os k fuel)
  unfolding wait_ready
  wait_ready-from n k zero d l = absurd (omega (arith, l))
  wait_ready-from n k (suc fuel) d l = elim (Result-cases (os.health k)) [
    | inl (h, e) ↦ rw (e, after_probe) (answered k (ok h) (some (ok h)) refl (inl (h, e, refl)))
    | inr (x, e) ↦ elim (Bool-cases (os.done k)) [
      | inl over ↦
          rw (e, after_probe, over)
            (answered k (err (not_ready x)) (some (err (not_ready x))) refl
              (inr (x, e, over, refl)))
      | inr on ↦
          let later : (m : ℕ) → k + suc m ≡ suc k + m = λ m. omega arith in
          let at_once : k + 0 ≡ k = omega arith in
          rw (e, after_probe, on)
            (unready k x (wait_ready os (suc k) fuel) e on (
              elim n
                  as (λ m.
                    os.done (k + m) ≡ true
                    → m < suc fuel
                    → Readies (suc k) (wait_ready os (suc k) fuel)) [
                      | zero ↦ λ d' l'. cc (on, (rw at_once at d'))
                      | suc m ↦
                          λ d' l'. wait_ready-from m (suc k) fuel (rw (later m) at d') (omega arith)
                    ]
                d l))
    ]
  ]

  -- Where the context ends, and there is fuel for a probe more than it lasts: WaitReady returns. The
  -- probes before the last have failed while the context went on; the last one answers, and its
  -- answer is the result, or it fails at the end of the context, and the error says so.
  pub wait_ready-Readies :
      (n fuel : ℕ) → os.done n ≡ true → n < fuel → Readies 0 (wait_ready os 0 fuel)
  wait_ready-Readies n fuel d l =
      let same_probe : n ≡ 0 + n = omega arith in
      wait_ready-from n 0 fuel (subst (λ j. os.done j ≡ true) same_probe d) l
