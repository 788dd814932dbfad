-- ===== src/Store/Descending.antt =====
-- Lists in descending order of a number, such as a table's rows by their ids, newest first.
use mathlib.Core.Path.{subst}
use sonata.Prelude.{
  ℕ, zero, suc, ◌<◌, ◌≡◌, ◌≢◌, refl, sym, ap, Bool, true, false, Option, none, some, List, [], ◌∷◌,
  ◌++◌, take, drop, keep, length, All, All-keep, ltb, if◌then◌else◌, arith, Bool-cases, inl, inr,
  ltb→lt,
}
use sonata.Prelude.Sorting.{insert_sorted, sort}

abbrev pub last? {ℓ} : {A : Type ℓ} → List A → Option A
last? [] = none
last? (x ∷ []) = some x
last? (x ∷ y ∷ xs) = last? (y ∷ xs)

module _ {A : Type 0} (id : A → ℕ) where
  abbrev pub desc : A → A → Bool
  desc a b = ltb (id b) (id a)

  -- Newest first, and no id twice.
  abbrev pub Descending : List A → Type 0
  Descending [] = Unit
  Descending (x ∷ xs) = All (λ y. id y < id x) xs × Descending xs

  abbrev pub DistinctIds : List A → Type 0
  DistinctIds [] = Unit
  DistinctIds (x ∷ xs) = All (λ y. id y ≢ id x) xs × DistinctIds xs

  All-insert :
      (P : A → Type 0) (x : A) (ys : List A) → P x → All P ys → All P (insert_sorted desc x ys)
  unfolding insert_sorted
  All-insert P x [] p h = (p, tt)
  All-insert P x (y ∷ ys) p h = elim (Bool-cases (desc x y)) [
    | inl e ↦ rw e (p, h)
    | inr e ↦ rw e (h.0, All-insert P x ys p h.1)
  ]

  pub All-sort : (P : A → Type 0) (xs : List A) → All P xs → All P (sort desc xs)
  unfolding sort
  All-sort P [] h = tt
  All-sort P (x ∷ xs) h = All-insert P x (sort desc xs) h.0 (All-sort P xs h.1)

  lower : (m n : ℕ) (xs : List A) → m < n → All (λ y. id y < m) xs → All (λ y. id y < n) xs
  lower m n [] l h = tt
  lower m n (x ∷ xs) l h = (omega (arith, h.0), lower m n xs l h.1)

  insert-Descending :
      (x : A) (ys : List A)
      → All (λ y. id y ≢ id x) ys
      → Descending ys
      → Descending (insert_sorted desc x ys)
  unfolding insert_sorted
  insert-Descending x [] f h = (tt, tt)
  insert-Descending x (y ∷ ys) f h = elim (Bool-cases (desc x y)) [
    | inl e ↦
        let below = ltb→lt (id y) (id x) e in rw e ((below, lower (id y) (id x) ys below h.0), h)
    | inr e ↦
        let other_id = f.0 in
        rw e (All-insert (λ z. id z < id y) x ys (ground arith) h.0, insert-Descending x ys f.1 h.1)
  ]

  pub sort-Descending : (xs : List A) → DistinctIds xs → Descending (sort desc xs)
  unfolding sort
  sort-Descending [] h = tt
  sort-Descending (x ∷ xs) h =
      insert-Descending x (sort desc xs) (All-sort (λ y. id y ≢ id x) xs h.0)
        (sort-Descending xs h.1)

  insert_first :
      (x : A) (ys : List A) → All (λ y. id y < id x) ys → insert_sorted desc x ys ≡ x ∷ ys
  unfolding insert_sorted
  insert_first x [] h = refl
  insert_first x (y ∷ ys) h = let below = h.0 in ground arith

  module _ (p : A → Bool) where
    kept_below : (n : ℕ) (ys : List A) → All (λ y. id y < n) ys → All (λ y. id y < n) (keep p ys)
    kept_below n [] h = tt
    kept_below n (y ∷ ys) h = ground (arith, kept_below n ys h.1)

    -- Filtering and insertion into a descending list commute.
    keep-insert :
        (x : A) (ys : List A)
        → Descending ys
        → keep p (insert_sorted desc x ys)
          ≡ (if p x then insert_sorted desc x (keep p ys) else keep p ys)
    unfolding insert_sorted
    keep-insert x [] h = refl
    keep-insert x (y ∷ ys) h = elim (Bool-cases (desc x y)) [
      | inl e ↦
          let below = ltb→lt (id y) (id x) e in
          let kept = kept_below (id x) (y ∷ ys) (below, lower (id y) (id x) ys below h.0) in
          rw e (
            ap (λ l. if p x then l else keep p (y ∷ ys))
              (sym (insert_first x (keep p (y ∷ ys)) kept)))
      | inr e ↦ rw e (ground (arith, keep-insert x ys h.1))
    ]

    pub keep-sort : (xs : List A) → DistinctIds xs → keep p (sort desc xs) ≡ sort desc (keep p xs)
    unfolding sort
    keep-sort [] h = refl
    keep-sort (x ∷ xs) h =
        ground (arith, keep-insert x (sort desc xs) (sort-Descending xs h.1), keep-sort xs h.1)

  pub All-take : (P : A → Type 0) (n : ℕ) (xs : List A) → All P xs → All P (take n xs)
  All-take P zero xs h = tt
  All-take P (suc n) [] h = tt
  All-take P (suc n) (x ∷ xs) h = (h.0, All-take P n xs h.1)

  pub All-last : (P : A → Type 0) (xs : List A) (x : A) → All P xs → last? xs ≡ some x → P x
  All-last P [] x h e = cc e
  All-last P (y ∷ []) x h e = let same_row : y ≡ x = cc e in subst P same_row h.0
  All-last P (y ∷ z ∷ xs) x h e = All-last P (z ∷ xs) x h.1 e

  keep_all : (n : ℕ) (xs : List A) → All (λ y. id y < n) xs → keep (λ y. ltb (id y) n) xs ≡ xs
  keep_all n [] h = refl
  keep_all n (x ∷ xs) h = let below = h.0 in ground (arith, keep_all n xs h.1)

  -- What is below the last row of a page is what comes after the page.
  pub keep-last :
      (n : ℕ) (xs : List A) (x : A)
      → Descending xs
      → last? (take (suc n) xs) ≡ some x
      → keep (λ y. ltb (id y) (id x)) xs ≡ drop (suc n) xs
  keep-last n [] x h e = cc e
  keep-last zero (y ∷ ys) x h e =
      let same_row : y ≡ x = cc e in
      subst (λ z. keep (λ w. ltb (id w) (id z)) (y ∷ ys) ≡ ys) same_row
        (ground (arith, keep_all (id y) ys h.0))
  keep-last (suc n) (y ∷ []) x h e =
      let same_row : y ≡ x = cc e in
      subst (λ z. keep (λ w. ltb (id w) (id z)) (y ∷ []) ≡ []) same_row (ground arith)
  keep-last (suc n) (y ∷ z ∷ ys) x h e =
      let below =
        All-last (λ w. id w < id y) (take (suc n) (z ∷ ys)) x
          (All-take (λ w. id w < id y) (suc n) (z ∷ ys) h.0) e in
      let rest = keep-last n (z ∷ ys) x h.1 e in
      let above : ltb (id y) (id x) ≡ false = ground arith in rw above rest

  pub keep_self : (p : A → Bool) (xs : List A) → All (λ x. p x ≡ true) (keep p xs)
  keep_self p [] = tt
  keep_self p (x ∷ xs) = ground (arith, keep_self p xs)

  pub DistinctIds-keep : (p : A → Bool) (xs : List A) → DistinctIds xs → DistinctIds (keep p xs)
  DistinctIds-keep p [] h = tt
  DistinctIds-keep p (x ∷ xs) h =
      let rest = DistinctIds-keep p xs h.1 in
      let apart = All-keep (λ y. id y ≢ id x) p xs h.0 in
      elim (Bool-cases (p x)) [ inl e ↦ rw e (apart, rest) | inr e ↦ rw e rest ]

  pub take-drop : (n : ℕ) (xs : List A) → take n xs ++ drop n xs ≡ xs
  take-drop zero xs = refl
  take-drop (suc n) [] = refl
  take-drop (suc n) (x ∷ xs) = ap (λ l. x ∷ l) (take-drop n xs)

  pub last?-none : (xs : List A) → last? xs ≡ none → xs ≡ []
  last?-none [] e = refl
  last?-none (x ∷ []) e = cc e
  last?-none (x ∷ y ∷ xs) e = cc (last?-none (y ∷ xs) e)

  pub empty_page : (n : ℕ) (xs : List A) → last? (take (suc n) xs) ≡ none → xs ≡ []
  empty_page n [] e = refl
  empty_page n (x ∷ xs) e = cc (last?-none (x ∷ take n xs) e)

  pub full_page : (n : ℕ) (xs : List A) (x : A) → last? (take (suc n) xs) ≡ some x → 0 < length xs
  full_page n [] x e = cc e
  full_page n (y ∷ xs) x e = omega arith
