-- ===== src/Store/Unique.antt =====
-- The keys of the deliveries table: the id, and UNIQUE (message_id, action_name).
use sonata.Prelude.{
  ℕ, ◌≤◌, ◌≡◌, refl, ◌∙◌, inl, inr, Bool, true, false, ◌||◌, ◌&&◌, arith, List, [], ◌∷◌, ◌++◌, Text,
  Option, count, update, any, All, ◌==◌, Bool-cases, same, none, some, if◌then◌else◌,
}
use sonata.Store.Types.{Delivery}
use sonata.Store.Deliveries.{has_id}
use sonata.Store.Messages.{same_target}

-- Whether INSERT refuses the row `e` beside the row `d`.
abbrev pub conflicts : Delivery → Delivery → Bool
conflicts e d = has_id e.id d || same_target e d

-- No row conflicts with an earlier one.
abbrev pub Unique : List Delivery → Type 0
Unique [] = Unit
Unique (d ∷ ds) = All (λ e. conflicts e d ≡ false) ds × Unique ds

abbrev pub key : Delivery → ℕ × Option ℕ × Text
key d = (d.id, d.message_id, d.action_name)

abbrev key_conflicts : ℕ × Option ℕ × Text → ℕ × Option ℕ × Text → Bool
key_conflicts k l = l.0 == k.0 || elim k.1 [
  | none ↦ false
  | some m ↦ elim l.1 [ none ↦ false | some n ↦ m == n && same k.2 l.2 ]
]

conflicts-key :
    (e d e' d' : Delivery) → key e' ≡ key e → key d' ≡ key d → conflicts e' d' ≡ conflicts e d
conflicts-key e d e' d' p q = λ i. key_conflicts (p i) (q i)

module _ (p : Delivery → Bool) (f : Delivery → Delivery)
    (keeps : (d : Delivery) → key (f d) ≡ key d) where
  written : Delivery → Delivery
  written d = if p d then f d else d

  key-written : (d : Delivery) → key (written d) ≡ key d
  unfolding written
  key-written d = elim (Bool-cases (p d)) [ inl e ↦ rw e (keeps d) | inr e ↦ rw e ]

  written-clear :
      (d : Delivery) (ds : List Delivery)
      → All (λ e. conflicts e d ≡ false) ds
      → All (λ e. conflicts e (written d) ≡ false) (update p f ds)
  unfolding update written
  written-clear d [] h = tt
  written-clear d (e ∷ ds) h = (
    conflicts-key e d (written e) (written d) (key-written e) (key-written d) ∙ h.0,
    written-clear d ds h.1,
  )

  pub update-Unique : (ds : List Delivery) → Unique ds → Unique (update p f ds)
  unfolding update written
  update-Unique [] u = tt
  update-Unique (d ∷ ds) u = (written-clear d ds u.0, update-Unique ds u.1)

clear-append :
    (d e : Delivery) (ds : List Delivery)
    → All (λ x. conflicts x d ≡ false) ds
    → conflicts e d ≡ false
    → All (λ x. conflicts x d ≡ false) (ds ++ e ∷ [])
clear-append d e [] h c = (c, tt)
clear-append d e (x ∷ ds) h c = (h.0, clear-append d e ds h.1 c)

-- A row that no earlier one refuses may be appended.
pub append-Unique :
    (e : Delivery) (ds : List Delivery)
    → any (conflicts e) ds ≡ false
    → Unique ds
    → Unique (ds ++ e ∷ [])
append-Unique e [] h u = (tt, tt)
append-Unique e (d ∷ ds) h u =
    (clear-append d e ds u.0 (ground arith), append-Unique e ds (ground arith) u.1)

module _ (i : ℕ) (p : Delivery → Bool) (at : (d : Delivery) → p d ≡ true → d.id ≡ i) where
  count-clear :
      (d : Delivery) (ds : List Delivery)
      → d.id ≡ i
      → All (λ e. conflicts e d ≡ false) ds
      → count p ds ≡ 0
  count-clear d [] h c = refl
  count-clear d (e ∷ ds) h c = ground (arith, at e, count-clear d ds h c.1)

  -- A test that fixes the id holds of one row at most.
  pub count-Unique : (ds : List Delivery) → Unique ds → count p ds ≤ 1
  count-Unique [] u = omega arith
  count-Unique (d ∷ ds) u = ground (arith, at d, count-clear d ds, count-Unique ds u.1)
