-- ===== src/Daemon/Run/Fleet.antt =====
-- internal/daemon/daemon.go, Run: several processes that start a daemon on one state directory.
-- The kernel gives the lock to one process at a time; all else may interleave.
use mathlib.Core.Path.{subst}
use sonata.Prelude.{
  ℕ, Bool, true, false, ◌||◌, some, List, ◌∷◌, if◌then◌else◌, ◌≡◌, ◌≢◌, refl, sym, ◌∙◌, arith, ◌==◌,
  ==_iff, ◌⊎◌, inl, inr, Bool-cases, Option-cases,
}
use sonata.Daemon.Run.{
  Effect, take_lock, write_pid, remove_stale, listen, restrict, close_listener, open_store, reap,
  start_scheduler, await_ready, serve, stop_serving, stop_scheduler, close_store, remove_socket,
  release_lock, Outcomes, run,
}
use sonata.Daemon.Run.Order.{
  Held, nothing, does, is_safe, allowed, and_allowed, allowed_all, run-Leaves,
}

-- A process, with the steps of its run that are left.
pub record Process : Type 0 where
  pub held : Held
  pub rest : List Effect

abbrev pub Fleet : Type 0
Fleet = ℕ → Process

abbrev pub update : Fleet → ℕ → Process → Fleet
update f p x q = if q == p then x else f q

-- What the kernel asks of a step: nobody holds the lock that is taken.
abbrev pub Free : Effect → Fleet → Type 0
Free take_lock f = (q : ℕ) → (f q).held.lock ≡ false
Free _ f = Unit

-- Any process takes the next step of its run, whatever the step needs.
pub data Step : Fleet → Fleet → Type 0 where
  act :
      {f : Fleet} (p : ℕ) (e : Effect) (es : List Effect)
      → (f p).rest ≡ e ∷ es
      → Free e f
      → Step f (update f p (record { held = does e (f p).held; rest = es }))

-- The processes before their first step: each has a run of its own ahead.
abbrev pub start : (ℕ → Outcomes) → Fleet
start o p = record { held = nothing; rest = (run (o p)).0 }

pub data Reach (o : ℕ → Outcomes) : Fleet → Type 0 where
  here : Reach o (start o)
  next : {f g : Fleet} → Reach o f → Step f g → Reach o g

-- A process has a part of the daemon.
abbrev pub has : Held → Bool
has h = h.lock || h.file || h.store || h.scheduler || h.serving

-- Without the lock a process has nothing.
abbrev IsGuarded : Held → Type 0
IsGuarded h = h.lock ≡ false → has h ≡ false

allowed-IsGuarded : (e : Effect) (h h' : Held) → allowed e h ≡ some h' → IsGuarded h → IsGuarded h'
unfolding allowed is_safe does
allowed-IsGuarded take_lock h h' a g = ground arith
allowed-IsGuarded write_pid h h' a g = ground arith
allowed-IsGuarded remove_stale h h' a g = ground arith
allowed-IsGuarded listen h h' a g = ground arith
allowed-IsGuarded restrict h h' a g = ground arith
allowed-IsGuarded close_listener h h' a g = ground arith
allowed-IsGuarded open_store h h' a g = ground arith
allowed-IsGuarded reap h h' a g = ground arith
allowed-IsGuarded start_scheduler h h' a g = ground arith
allowed-IsGuarded await_ready h h' a g = ground arith
allowed-IsGuarded serve h h' a g = ground arith
allowed-IsGuarded stop_serving h h' a g = ground arith
allowed-IsGuarded stop_scheduler h h' a g = ground arith
allowed-IsGuarded close_store h h' a g = ground arith
allowed-IsGuarded remove_socket h h' a g = ground arith
allowed-IsGuarded release_lock h h' a g = ground arith

-- Only one step takes the lock.
allowed-lock :
    (e : Effect) (f : Fleet) (h h' : Held)
    → allowed e h ≡ some h'
    → Free e f
    → h'.lock ≡ true
    → (h.lock ≡ true) ⊎ ((q : ℕ) → (f q).held.lock ≡ false)
unfolding allowed is_safe does
allowed-lock take_lock f h h' a g t = inr g
allowed-lock write_pid f h h' a g t = inl (ground arith)
allowed-lock remove_stale f h h' a g t = inl (ground arith)
allowed-lock listen f h h' a g t = inl (ground arith)
allowed-lock restrict f h h' a g t = inl (ground arith)
allowed-lock close_listener f h h' a g t = inl (ground arith)
allowed-lock open_store f h h' a g t = inl (ground arith)
allowed-lock reap f h h' a g t = inl (ground arith)
allowed-lock start_scheduler f h h' a g t = inl (ground arith)
allowed-lock await_ready f h h' a g t = inl (ground arith)
allowed-lock serve f h h' a g t = inl (ground arith)
allowed-lock stop_serving f h h' a g t = inl (ground arith)
allowed-lock stop_scheduler f h h' a g t = inl (ground arith)
allowed-lock close_store f h h' a g t = inl (ground arith)
allowed-lock remove_socket f h h' a g t = inl (ground arith)
allowed-lock release_lock f h h' a g t = inl (ground arith)

-- One process at most has the lock, and each can do all that its run has left.
record IsSafe (f : Fleet) : Type 0 where
  guarded : (p : ℕ) → IsGuarded (f p).held
  alone : (p q : ℕ) → (f p).held.lock ≡ true → (f q).held.lock ≡ true → p ≡ q
  fits : (p : ℕ) → (end : Held) × (allowed_all (f p).rest (f p).held ≡ some end)

start-IsSafe : (o : ℕ → Outcomes) → IsSafe (start o)
start-IsSafe o = record {
  guarded = λ p e. refl;
  alone = λ p q e. cc e;
  fits = λ p. (_, run-Leaves (o p));
}

-- The next of the steps that are left is safe, and so are those after it.
fits-next :
    (e : Effect) (es : List Effect) (h end : Held)
    → allowed_all (e ∷ es) h ≡ some end
    → (h' : Held) × (allowed e h ≡ some h') × (allowed_all es h' ≡ some end)
unfolding allowed_all
fits-next e es h end a = elim (Option-cases (allowed e h)) [
  | inl stuck ↦ cc ((rw stuck at a))
  | inr (h', went) ↦ (h', went, rw (went, and_allowed) at a)
]

module _ (f : Fleet) (p : ℕ) (e : Effect) (es : List Effect) (h : Held) (left : (f p).rest ≡ e ∷ es)
    (went : allowed e (f p).held ≡ some h) (free : Free e f) (safe : IsSafe f) where
  after : Fleet
  after = update f p (record { held = h; rest = es })

  -- Who holds the lock after the step held it before, or took it while nobody did.
  holder-before :
      (q : ℕ)
      → (after q).held.lock ≡ true
      → ((f q).held.lock ≡ true) ⊎ ((q ≡ p) × ((r : ℕ) → (f r).held.lock ≡ false))
  unfolding after
  holder-before q t = elim (Bool-cases (q == p)) [
    | inr other ↦ inl (rw other at t)
    | inl self ↦
        let q-is-p = (==_iff q p).0 self in
        elim (allowed-lock e f (f p).held h went free (rw self at t)) [
          | inl held ↦ inl (rw q-is-p held)
          | inr nobody ↦ inr (q-is-p, nobody)
        ]
  ]

  after-alone : (a b : ℕ) → (after a).held.lock ≡ true → (after b).held.lock ≡ true → a ≡ b
  after-alone a b s t = elim (holder-before a s) [
    | inl x ↦ elim (holder-before b t) [
      | inl y ↦ safe.alone a b x y
      | inr (y, nobody) ↦ cc (x, nobody a)
    ]
    | inr (x, nobody) ↦ elim (holder-before b t) [
      | inl y ↦ cc (y, nobody b)
      | inr (y, none_either) ↦ x ∙ sym y
    ]
  ]

  after-IsGuarded : (q : ℕ) → IsGuarded (after q).held
  unfolding after
  after-IsGuarded q = elim (Bool-cases (q == p)) [
    | inr other ↦ rw other (safe.guarded q)
    | inl self ↦ rw self (allowed-IsGuarded e (f p).held h went (safe.guarded p))
  ]

  after-fits : (q : ℕ) → (end : Held) × (allowed_all (after q).rest (after q).held ≡ some end)
  unfolding after
  after-fits q = elim (Bool-cases (q == p)) [
    | inr other ↦ rw other (safe.fits q)
    | inl self ↦
        let (end, fit) = safe.fits p in
        let (h', went', fit') = fits-next e es (f p).held end (rw left at fit) in
        let same_held : h' ≡ h = cc (went, went') in
        rw self (end, subst (λ x. allowed_all es x ≡ some end) same_held fit')
  ]

  after-IsSafe : IsSafe after
  after-IsSafe = record { guarded = after-IsGuarded; alone = after-alone; fits = after-fits }

allowed-does : (e : Effect) (h h' : Held) → allowed e h ≡ some h' → h' ≡ does e h
unfolding allowed
allowed-does e h h' a = elim (Bool-cases (is_safe e h)) [
  | inl s ↦ cc ((rw s at a))
  | inr s ↦ cc ((rw s at a))
]

-- The next step of a run is safe where the run has come to it.
Step-IsSafe : {f g : Fleet} → Step f g → IsSafe f → IsSafe g
unfolding after
Step-IsSafe {f} (act p e es left free) safe =
    let (end, fit) = safe.fits p in
    let (h, went, rest) = fits-next e es (f p).held end (rw left at fit) in
    subst (λ x. IsSafe (update f p (record { held = x; rest = es })))
      (allowed-does e (f p).held h went) (after-IsSafe f p e es h left went free safe)

Reach-IsSafe : (o : ℕ → Outcomes) {f : Fleet} → Reach o f → IsSafe f
Reach-IsSafe o here = start-IsSafe o
Reach-IsSafe o (next r s) = Step-IsSafe s (Reach-IsSafe o r)

IsGuarded-has : (h : Held) → IsGuarded h → has h ≡ true → h.lock ≡ true
IsGuarded-has h g t = ground arith

-- However many processes run Run at once, whatever its calls answer in each, and however their steps
-- interleave: while one has any of the lock, the socket file, the store, the scheduler and the
-- server, another has none of them.
pub Reach-Apart :
    (o : ℕ → Outcomes) {f : Fleet}
    → Reach o f
    → (p q : ℕ) → p ≢ q
    → has (f p).held ≡ true
    → has (f q).held ≡ false
Reach-Apart o {f} r p q apart hp =
    let safe = Reach-IsSafe o r in
    elim (Bool-cases (has (f q).held)) [
      | inr free ↦ free
      | inl hq ↦ absurd (
          apart (
            safe.alone p q (IsGuarded-has (f p).held (safe.guarded p) hp)
              (IsGuarded-has (f q).held (safe.guarded q) hq)))
    ]
