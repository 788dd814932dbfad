-- ===== src/Daemon/Ensure/Single.antt =====
-- How many daemons the callers of EnsureRunning of internal/daemon/ensure.go start.
use sonata.Daemon.Ensure.Phases.{
  is_starting, holds_lock, has_returned, has_started, Names, one_if, count-middle, All-replaced,
  none_returned, renamed, starting-holds_lock, started-has_returned, count-moved,
}
use mathlib.Core.Path.{subst}
use sonata.Prelude.{
  zero, replicate, ◌⊎◌, inl, inr, ℕ, suc, ◌+◌, ◌≤◌, ◌≡◌, refl, sym, ap, ◌∙◌, Bool, true, false,
  Option, none, some, List, ◌∷◌, ◌++◌, All, count, arith, if◌then◌else◌,
}
use sonata.Daemon.Ensure.{
  Caller, arriving, probing, starting, returned, failed, Startup, Step, acquires, gives_up, finds,
  breaks, spawns, serves, readies, disagrees, stops, Reach, here, next,
}

pub record Single (s : Startup) : Type 0 where
  pub lock : count holds_lock s.callers ≡ (if s.locked then 1 else 0)
  pub named : All (Names s.daemon) s.callers
  pub alone : 1 ≤ count is_starting s.callers → count has_returned s.callers ≡ 0
  pub once : count has_started s.callers ≤ 1

module _ (s : Startup) (single : Single s) (before after : List Caller) (c d : Caller)
    (at : s.callers ≡ before ++ c ∷ after) where
  -- A caller that moves on without a result.
  moved_on :
      (locked : Bool)
      → has_returned c ≡ false
      → has_returned d ≡ false
      → has_started c ≡ false
      → has_started d ≡ false
      → one_if locked + one_if (holds_lock c) ≡ one_if s.locked + one_if (holds_lock d)
      → (is_starting d ≡ false) ⊎ (count has_returned s.callers ≡ 0)
      → Names s.daemon d
      → Single (record s { locked = locked; callers = before ++ d ∷ after })
  moved_on locked r r' t t' l a n =
      let lock = count-moved holds_lock s.callers before after c d at in
      let old = single.lock in
      record {
        lock = omega (arith, lock, l, old);
        named =
            All-replaced (Names s.daemon) before after c d n
              (subst (All (Names s.daemon)) at single.named);
        alone = λ h. none_yet (elim a [
          | inl e ↦
              let start = count-moved is_starting s.callers before after c d at in
              let zero_if = ap one_if e in single.alone (omega (arith, start, zero_if, h))
          | inr z ↦ z
        ]);
        once =
            let one = count-moved has_started s.callers before after c d at in
            let zero_if = ap one_if t' in
            let bound = single.once in omega (arith, one, zero_if, bound);
      }
    where
      none_yet : count has_returned s.callers ≡ 0 → count has_returned (before ++ d ∷ after) ≡ 0
      none_yet z =
          let ret = count-moved has_returned s.callers before after c d at in
          let zero_if = ap one_if r' in omega (arith, ret, zero_if, z)

  -- A caller that holds the lock returns the process that serves, and releases it.
  returns :
      (pid : ℕ) (started : Bool)
      → d ≡ returned pid started
      → holds_lock c ≡ true
      → s.daemon ≡ some pid
      → (started ≡ false) ⊎ (is_starting c ≡ true)
      → Single (record s { locked = false; callers = before ++ d ∷ after })
  returns pid started e holds there o =
      let lock = count-moved holds_lock s.callers before after c d at in
      let old = single.lock in
      let one = ap one_if holds in
      let zero_if = ap (λ x. one_if (holds_lock x)) e in
      let none_left : count holds_lock (before ++ d ∷ after) ≡ 0 =
        let bound : one_if s.locked ≤ 1 = ground arith in
        omega (arith, lock, old, one, zero_if, bound) in
      let fewer = starting-holds_lock (before ++ d ∷ after) in
      record {
        lock = none_left;
        named =
            All-replaced (Names s.daemon) before after c d (subst (Names s.daemon) (sym e) there)
              (subst (All (Names s.daemon)) at single.named);
        alone = λ h. absurd (omega (arith, h, fewer, none_left));
        once =
            let moved = count-moved has_started s.callers before after c d at in
            elim o [
              | inl f ↦
                  let quiet = ap (λ x. one_if (has_started x)) (e ∙ ap (returned pid) f) in
                  let bound = single.once in omega (arith, moved, quiet, bound)
              | inr g ↦
                  let start = count-moved is_starting s.callers before after c d at in
                  let one_start = ap one_if g in
                  let no_start = ap (λ x. one_if (is_starting x)) e in
                  let none_yet = single.alone (omega (arith, start, one_start, no_start)) in
                  let fewer_started = started-has_returned s.callers in
                  let one_more : one_if (has_started d) ≤ 1 = ground arith in
                  omega (arith, moved, none_yet, fewer_started, one_more)
            ];
      }

  locked_if : holds_lock c ≡ true → one_if s.locked ≡ 1
  locked_if h =
      let middle = count-middle holds_lock before after c in
      let one = ap one_if h in
      let old = single.lock in
      let same_count = ap (count holds_lock) at in
      let bound : one_if s.locked ≤ 1 = ground arith in
      omega (arith, middle, one, old, same_count, bound)

  none_returned_if : is_starting c ≡ true → count has_returned s.callers ≡ 0
  none_returned_if h =
      let middle = count-middle is_starting before after c in
      let one = ap one_if h in
      let same_count = ap (count is_starting) at in
      single.alone (omega (arith, middle, one, same_count))

-- Where none has returned, any process may come to serve, and the one that served may go.
reserved :
    (s : Startup) (daemon : Option ℕ)
    → Single s
    → count has_returned s.callers ≡ 0
    → Single (record s { daemon = daemon })
reserved s daemon i z = record {
  lock = i.lock;
  named = renamed s.daemon daemon s.callers z i.named;
  alone = i.alone;
  once = i.once;
}

release_at : {n : ℕ} → n ≡ 1 → 0 + 1 ≡ n + 0
release_at h = omega (arith, h)

-- Every step keeps the invariant.
Step-Single : {s t : Startup} → Step s t → Single s → Single t
Step-Single {s} (acquires before after e free) i =
    moved_on s i before after arriving probing e true refl refl refl refl (rw free refl) (inl refl)
      tt
Step-Single {s} (gives_up before after e) i =
    moved_on s i before after arriving failed e s.locked refl refl refl refl refl (inl refl) tt
Step-Single {s} (finds before after pid e d) i =
    returns s i before after probing (returned pid false) e pid false refl refl d (inl refl)
Step-Single {s} (breaks before after e) i =
    moved_on s i before after probing failed e false refl refl refl refl
      (release_at (locked_if s i before after probing failed e refl)) (inl refl) tt
Step-Single {s} (spawns before after pid e d) i =
    moved_on s i before after probing (starting pid) e s.locked refl refl refl refl refl
      (inr (none_returned s.daemon s.callers d i.named)) tt
Step-Single {s} (serves before after pid e) i =
    reserved s (some pid) i (none_returned_if s i before after (starting pid) failed e refl)
Step-Single {s} (readies before after pid e d) i =
    returns s i before after (starting pid) (returned pid true) e pid true refl refl d (inr refl)
Step-Single {s} (disagrees before after pid other e d n) i =
    moved_on s i before after (starting pid) failed e false refl refl refl refl
      (release_at (locked_if s i before after (starting pid) failed e refl)) (inl refl) tt
Step-Single {s} (stops before after pid e) i =
    let gone = reserved s none i (none_returned_if s i before after (starting pid) failed e refl) in
    moved_on (record s { daemon = none }) gone before after (starting pid) failed e false refl refl
      refl refl (release_at (locked_if s i before after (starting pid) failed e refl)) (inl refl) tt

Reach-Single : {s t : Startup} → Reach s t → Single s → Single t
Reach-Single here i = i
Reach-Single (next r step) i = Step-Single step (Reach-Single r i)

-- Any number of callers before EnsureRunning, with no daemon.
abbrev pub arriving_callers : ℕ → Startup
arriving_callers n = record { locked = false; daemon = none; callers = replicate n arriving }

arriving_callers-Single : (n : ℕ) → Single (arriving_callers n)
arriving_callers-Single zero = record {
  lock = refl;
  named = tt;
  alone = λ h. refl;
  once = omega arith;
}
arriving_callers-Single (suc n) =
    let i = arriving_callers-Single n in
    record { lock = i.lock; named = (tt, i.named); alone = i.alone; once = i.once }

-- However many processes call EnsureRunning at once where no daemon serves, and in whatever order
-- their steps come, where no daemon is started otherwise and one that is ready runs on: at every
-- moment at most one of them is between the acquisition and the release of the start lock, all that
-- have returned a process have returned the one that serves, and at most one of them has started it.
pub Reach-once :
    (n : ℕ) (s : Startup)
    → Reach (arriving_callers n) s
    → (count holds_lock s.callers ≤ 1)
      × All (Names s.daemon) s.callers
      × (count has_started s.callers ≤ 1)
Reach-once n s r =
    let i = Reach-Single r (arriving_callers-Single n) in
    let lock = i.lock in
    let bound : one_if s.locked ≤ 1 = ground arith in (omega (arith, lock, bound), i.named, i.once)
