-- ===== src/Prelude/Rows.antt =====
-- A table as the list of its rows: the updates and counts that SQL statements make.
use Prim.Native.Nat.{◌+◌}
use mathlib.Core.Path.{◌≡◌, refl}
use mathlib.Core.Bool.{Bool, true, false}
use mathlib.Core.List.{List, [], ◌∷◌}
use native.Mathlib.Omega.{arith}
use sonata.Prelude.Tests.{if◌then◌else◌}
use sonata.Prelude.Lists.{count, All}

module _ {ℓ} {A : Type ℓ} where
  -- `UPDATE … SET f WHERE p`; `RowsAffected` is `count p` of the table before it.
  unfoldable pub update : (A → Bool) → (A → A) → List A → List A
  update p f [] = []
  update p f (x ∷ xs) = (if p x then f x else x) ∷ update p f xs

  -- Rows that satisfy `q` stay so where the written rows do.
  pub update-All {κ} :
      (Q : A → Type κ) (p : A → Bool) (f : A → A) (xs : List A)
      → ((x : A) → p x ≡ true → Q x → Q (f x))
      → All Q xs
      → All Q (update p f xs)
  unfolding update
  update-All Q p f [] keep h = tt
  update-All Q p f (x ∷ xs) keep h = ground (arith, keep x, update-All Q p f xs keep h.1)

  -- An update that keeps the test of a count keeps the count.
  pub count-update_same :
      (q p : A → Bool) (f : A → A) (xs : List A)
      → ((x : A) → p x ≡ true → q (f x) ≡ q x)
      → count q (update p f xs) ≡ count q xs
  unfolding update
  count-update_same q p f [] keep = refl
  count-update_same q p f (x ∷ xs) keep = ground (arith, keep x, count-update_same q p f xs keep)

  -- An update that takes its rows out of a count lowers it by the rows affected.
  pub count-update_leave :
      (q p : A → Bool) (f : A → A) (xs : List A)
      → ((x : A) → p x ≡ true → (q x ≡ true) × (q (f x) ≡ false))
      → count q (update p f xs) + count p xs ≡ count q xs
  unfolding update
  count-update_leave q p f [] leave = refl
  count-update_leave q p f (x ∷ xs) leave =
      ground (arith, leave x, count-update_leave q p f xs leave)

  -- An update that brings its rows into a count raises it by the rows affected.
  pub count-update_enter :
      (q p : A → Bool) (f : A → A) (xs : List A)
      → ((x : A) → p x ≡ true → (q x ≡ false) × (q (f x) ≡ true))
      → count q (update p f xs) ≡ count q xs + count p xs
  unfolding update
  count-update_enter q p f [] enter = refl
  count-update_enter q p f (x ∷ xs) enter =
      ground (arith, enter x, count-update_enter q p f xs enter)

-- The same for rows of which the premise is known only within the table.
module _ {A : Type 0} where
  pub count-update_leave_in :
      (q p : A → Bool) (f : A → A) (xs : List A)
      → All (λ x. p x ≡ true → (q x ≡ true) × (q (f x) ≡ false)) xs
      → count q (update p f xs) + count p xs ≡ count q xs
  unfolding update
  count-update_leave_in q p f [] leave = refl
  count-update_leave_in q p f (x ∷ xs) leave =
      ground (arith, leave.0, count-update_leave_in q p f xs leave.1)
