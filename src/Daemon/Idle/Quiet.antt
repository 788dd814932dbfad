-- ===== src/Daemon/Idle/Quiet.antt =====
-- What has happened when the idle tracker of internal/daemon/daemon.go fires.
use mathlib.Core.Path.{subst}
use sonata.Prelude.{
  ◌⊎◌, ℕ, ◌+◌, ◌≤◌, ◌≡◌, refl, ap, Bool, true, false, not, ◌||◌, List, [], ◌∷◌, ◌++◌, ltb, arith,
  All, Bool-cases, inl, inr,
}
use sonata.Prelude.Int.{ℤ}
use sonata.Daemon.Idle.{
  IdleTracker, Event, touched, ticked, touch, tick, react, react_all, new_idle_tracker,
}

abbrev pub time : Event → ℕ
time (touched now) = now
time (ticked now busy) = now

-- The events come in the order of their times, none before `start`.
abbrev pub Chronological : ℕ → List Event → Type 0
Chronological start [] = Unit
Chronological start (e ∷ es) = (start ≤ time e) × Chronological (time e) es

-- A touch at least `timeout` before `now`; a tick may be at any time.
abbrev pub Quiet : ℕ → ℕ → Event → Type 0
Quiet timeout now (touched at) = at + timeout ≤ now
Quiet timeout now (ticked at busy) = Unit

-- The events up to the tick that fired, which found nothing busy.
abbrev pub Fired : IdleTracker → List Event → Type 0
Fired t es =
    (before : List Event) × (now : ℕ) × (after : List Event) × (es
      ≡ before ++ ticked now false ∷ after)
    × (t.last + t.timeout ≤ now)
    × All (Quiet t.timeout now) before

Chronological-weaken : (m n : ℕ) (es : List Event) → m ≤ n → Chronological n es → Chronological m es
Chronological-weaken m n [] h c = tt
Chronological-weaken m n (e ∷ es) h c = (omega (arith, h, c.0), c.1)

tick_cases :
    (u : ℕ) (busy : Bool) (t : IdleTracker)
    → (tick u busy t ≡ t)
      ⊎ ((t.last + t.timeout ≤ u)
          × (((busy ≡ false) × (tick u busy t ≡ record t { closed = true }))
              ⊎ (tick u busy t ≡ touch u t)))
unfolding tick
tick_cases u busy t = elim (Bool-cases (t.closed || not t.watching || ltb u (t.last + t.timeout))) [
  | inl e ↦ inl (rw e refl)
  | inr e ↦ inr (
    ground arith,
    elim (Bool-cases busy) [ inl b ↦ inr (rw (e, b) refl) | inr b ↦ inl (b, rw (e, b) refl) ],
  )
]

react_all-Fired :
    (es : List Event) (t : IdleTracker)
    → t.closed ≡ false
    → Chronological t.last es
    → (react_all es t).closed ≡ true
    → Fired t es
unfolding react_all react touch
react_all-Fired [] t o c h = cc (o, h)
react_all-Fired (touched u ∷ es) t o c h =
    let (before, now, after, e, l, q) = react_all-Fired es (touch u t) o c.1 h in
    (touched u ∷ before, now, after, ap (λ x. touched u ∷ x) e, omega (arith, c.0, l), (l, q))
react_all-Fired (ticked u busy ∷ es) t o c h = elim (tick_cases u busy t) [
  | inl same ↦
      let (before, now, after, e, l, q) =
        react_all-Fired es t o (Chronological-weaken t.last u es c.0 c.1)
          (subst (λ x. (react_all es x).closed ≡ true) same h) in
      (ticked u busy ∷ before, now, after, ap (λ x. ticked u busy ∷ x) e, l, (tt, q))
  | inr (late, inl (quiet, e)) ↦ ([], u, es, ap (λ b. ticked u b ∷ es) quiet, late, tt)
  | inr (late, inr same) ↦
      let (before, now, after, e, l, q) =
        react_all-Fired es (touch u t) o c.1 (subst (λ x. (react_all es x).closed ≡ true) same h) in
      (
        ticked u busy ∷ before,
        now,
        after,
        ap (λ x. ticked u busy ∷ x) e,
        omega (arith, c.0, l),
        (tt, q),
      )
]

-- Where the tracker fires, in events that come in the order of their times after it was made: it
-- does so at a tick of its watch at which nothing is busy, and every touch before that tick, and the
-- making of the tracker, are at least the timeout earlier.
pub react_all-quiet :
    (timeout : ℤ) (start : ℕ) (es : List Event)
    → Chronological start es
    → (react_all es (new_idle_tracker timeout start)).closed ≡ true
    → Fired (new_idle_tracker timeout start) es
unfolding new_idle_tracker
react_all-quiet timeout start es c h = react_all-Fired es (new_idle_tracker timeout start) refl c h
