-- ===== src/Store/Lifecycle.antt =====
-- The states that a delivery of internal/store goes through, as an abstract machine, and what the
-- rows of the deliveries table have in common with it.
pub mod Refinement
use sonata.Prelude.{
  ℕ, ◌≡◌, refl, ◌∙◌, if◌then◌else◌, Bool, true, List, [], ◌∷◌, ◌++◌, All, arith, update, Bool-cases,
  inl, inr, ◌⊎◌,
}
use sonata.Store.Types.{State, pending, claimed, done, failed, filtered, dead, cancelled, Delivery}
use sonata.Store.Unique.{key}

-- A change of state: a delivery that waits is claimed, or is settled without a run; a run ends done,
-- waiting for a retry, or dead; a replay takes a dead delivery back to pending.
abbrev pub Edge : State → State → Type 0
Edge pending claimed = Unit
Edge pending filtered = Unit
Edge pending dead = Unit
Edge pending cancelled = Unit
Edge failed claimed = Unit
Edge failed filtered = Unit
Edge failed dead = Unit
Edge failed cancelled = Unit
Edge claimed done = Unit
Edge claimed failed = Unit
Edge claimed dead = Unit
Edge dead pending = Unit
Edge _ _ = ⊥

-- One change at most.
abbrev pub Goes : State → State → Type 0
Goes s t = (s ≡ t) ⊎ Edge s t

-- Each row of the first table is in the second, at the same place with the same key and at most one
-- change of its state further; each further row is pending.
abbrev pub Advances : List Delivery → List Delivery → Type 0
Advances [] ds = All (λ d. d.state ≡ pending) ds
Advances (old ∷ rows) [] = ⊥
Advances (old ∷ rows) (d ∷ ds) = (key d ≡ key old) × Goes old.state d.state × Advances rows ds

pub Advances-refl : (rows : List Delivery) → Advances rows rows
Advances-refl [] = tt
Advances-refl (d ∷ rows) = (refl, inl refl, Advances-refl rows)

pub Advances-append :
    (rows ds new : List Delivery)
    → All (λ d. d.state ≡ pending) new
    → Advances rows ds
    → Advances rows (ds ++ new)
Advances-append [] [] new n h = n
Advances-append [] (d ∷ ds) new n h = (h.0, Advances-append [] ds new n h.1)
Advances-append (old ∷ rows) [] new n h = absurd h
Advances-append (old ∷ rows) (d ∷ ds) new n h = (h.0, h.1, Advances-append rows ds new n h.2)

-- What an UPDATE does to a row that it affects.
abbrev pub Moves : (Delivery → Bool) → (Delivery → Delivery) → Delivery → Type 0
Moves p f d = p d ≡ true → (key (f d) ≡ key d) × Goes d.state (f d).state

written-Moves :
    (p : Delivery → Bool) (f : Delivery → Delivery) (d : Delivery)
    → Moves p f d
    → (key (if p d then f d else d) ≡ key d) × Goes d.state (if p d then f d else d).state
written-Moves p f d m = elim (Bool-cases (p d)) [
  | inl e ↦ rw e (m e)
  | inr e ↦ rw e (refl, inl refl)
]

pub update-Advances :
    (p : Delivery → Bool) (f : Delivery → Delivery) (rows : List Delivery)
    → All (Moves p f) rows
    → Advances rows (update p f rows)
unfolding update
update-Advances p f [] m = tt
update-Advances p f (d ∷ rows) m =
    let w = written-Moves p f d m.0 in (w.0, w.1, update-Advances p f rows m.1)
