-- ===== src/Daemon/Ensure/Phases.antt =====
-- Where the callers of EnsureRunning of internal/daemon/ensure.go stand, by number.

use sonata.Prelude.{
  ℕ, ◌+◌, ◌≤◌, ◌≡◌, refl, Bool, true, false, Option, none, some, List, [], ◌∷◌, ◌++◌, All,
  All-append, count, count-append, arith, if◌then◌else◌,
}
use sonata.Daemon.Ensure.{Caller, arriving, probing, starting, returned, failed}

abbrev pub is_starting : Caller → Bool
is_starting (starting pid) = true
is_starting c = false

-- Between the start lock's acquisition and its release.
abbrev pub holds_lock : Caller → Bool
holds_lock probing = true
holds_lock (starting pid) = true
holds_lock c = false

abbrev pub has_returned : Caller → Bool
has_returned (returned pid started) = true
has_returned c = false

abbrev pub has_started : Caller → Bool
has_started (returned pid true) = true
has_started c = false

-- A caller that has returned a process has returned the one that serves.
abbrev pub Names : Option ℕ → Caller → Type 0
Names daemon (returned pid started) = daemon ≡ some pid
Names daemon c = Unit

abbrev pub one_if : Bool → ℕ
one_if b = if b then 1 else 0

pub count-middle :
    (p : Caller → Bool) (before after : List Caller) (c : Caller)
    → count p (before ++ c ∷ after) ≡ count p before + one_if (p c) + count p after
count-middle p before after c = let sums = count-append p before (c ∷ after) in ground arith

pub All-middle :
    (P : Caller → Type 0) (before after : List Caller) (c : Caller)
    → All P (before ++ c ∷ after)
    → All P before × P c × All P after
All-middle P [] after c h = (tt, h.0, h.1)
All-middle P (b ∷ before) after c h =
    let (x, y, z) = All-middle P before after c h.1 in ((h.0, x), y, z)

pub All-replaced :
    (P : Caller → Type 0) (before after : List Caller) (c d : Caller)
    → P d
    → All P (before ++ c ∷ after)
    → All P (before ++ d ∷ after)
All-replaced P before after c d p h =
    let (x, y, z) = All-middle P before after c h in All-append P before (d ∷ after) x (p, z)

pub none_returned :
    (daemon : Option ℕ) (cs : List Caller)
    → daemon ≡ none
    → All (Names daemon) cs
    → count has_returned cs ≡ 0
none_returned daemon [] e h = refl
none_returned daemon (returned pid started ∷ cs) e h = cc (e, h.0)
none_returned daemon (arriving ∷ cs) e h = none_returned daemon cs e h.1
none_returned daemon (probing ∷ cs) e h = none_returned daemon cs e h.1
none_returned daemon (starting pid ∷ cs) e h = none_returned daemon cs e h.1
none_returned daemon (failed ∷ cs) e h = none_returned daemon cs e h.1

-- Where none has returned, any process may serve.
pub renamed :
    (old new : Option ℕ) (cs : List Caller)
    → count has_returned cs ≡ 0
    → All (Names old) cs
    → All (Names new) cs
renamed old new [] e h = tt
renamed old new (returned pid started ∷ cs) e h = cc e
renamed old new (arriving ∷ cs) e h = (tt, renamed old new cs e h.1)
renamed old new (probing ∷ cs) e h = (tt, renamed old new cs e h.1)
renamed old new (starting pid ∷ cs) e h = (tt, renamed old new cs e h.1)
renamed old new (failed ∷ cs) e h = (tt, renamed old new cs e h.1)

pub starting-holds_lock : (cs : List Caller) → count is_starting cs ≤ count holds_lock cs
starting-holds_lock [] = omega arith
starting-holds_lock (arriving ∷ cs) = starting-holds_lock cs
starting-holds_lock (probing ∷ cs) = let h = starting-holds_lock cs in omega (arith, h)
starting-holds_lock (starting pid ∷ cs) = let h = starting-holds_lock cs in omega (arith, h)
starting-holds_lock (returned pid started ∷ cs) = starting-holds_lock cs
starting-holds_lock (failed ∷ cs) = starting-holds_lock cs

pub started-has_returned : (cs : List Caller) → count has_started cs ≤ count has_returned cs
started-has_returned [] = omega arith
started-has_returned (arriving ∷ cs) = started-has_returned cs
started-has_returned (probing ∷ cs) = started-has_returned cs
started-has_returned (starting pid ∷ cs) = started-has_returned cs
started-has_returned (returned pid true ∷ cs) = let h = started-has_returned cs in omega (arith, h)
started-has_returned (returned pid false ∷ cs) = let h = started-has_returned cs in omega (arith, h)
started-has_returned (failed ∷ cs) = started-has_returned cs

-- What a count gains and loses where one caller moves.
pub count-moved :
    (p : Caller → Bool) (cs before after : List Caller) (c d : Caller)
    → cs ≡ before ++ c ∷ after
    → count p (before ++ d ∷ after) + one_if (p c) ≡ count p cs + one_if (p d)
count-moved p cs before after c d e =
    let old = count-middle p before after c in
    let new = count-middle p before after d in rw e (omega (arith, old, new))
