-- ===== src/Store/Paging.antt =====
-- internal/store: the lists of deliveries.go and messages.go, page after page: the caller takes the
-- id of the last row of a page as the cursor of the next one.
use sonata.Prelude.Sorting.{length-sort}
use sonata.Prelude.{length-keep}
use sonata.Prelude.{
  ℕ, zero, suc, ◌<◌, ◌≡◌, ◌≢◌, refl, sym, ap, ◌∙◌, true, false, Option, none, some, List, [], ◌∷◌,
  ◌++◌, take, drop, keep, length, All, ltb, arith, Bool-cases, inl, inr, Option-cases, length-drop,
}
use sonata.Prelude.Sorting.{sort}
use sonata.Store.Descending.{
  last?, desc, Descending, DistinctIds, keep-sort, All-take, All-last, keep-last, keep_self,
  DistinctIds-keep, take-drop, last?-none, empty_page, full_page, All-sort, sort-Descending,
}
use sonata.Prelude.Int.{ℤ, pos, negsuc}
use sonata.Store.Types.{Delivery, Db}
use sonata.Store.Unique.{Unique, conflicts}
use sonata.Store.Soundness.{IsSound}
use sonata.Store.Queries.{
  page, unless_none, clamp_limit, max_list_limit, DeliveryListOptions, delivery_matches,
  list_deliveries,
}

module _ {A : Type 0} (id : A → ℕ) where
  -- The cursors narrow: what is below a row below the last cursor is below that too.
  keep-keep :
      (c : Option ℕ) (x : A) (rows : List A)
      → unless_none c (λ b. ltb (id x) b) ≡ true
      → keep (λ a. ltb (id a) (id x)) (keep (λ a. unless_none c (λ b. ltb (id a) b)) rows)
        ≡ keep (λ a. ltb (id a) (id x)) rows
  keep-keep c x [] h = refl
  keep-keep none x (y ∷ rows) h = ground (arith, keep-keep none x rows h)
  keep-keep (some b) x (y ∷ rows) h = ground (arith, keep-keep (some b) x rows h)

  -- Page after page from a cursor on, up to an empty page, on fuel.
  unfoldable pub follow : (Option ℕ → List A) → ℕ → Option ℕ → List A
  follow fetch zero c = []
  follow fetch (suc fuel) c =
      fetch c ++ elim (last? (fetch c)) [ none ↦ [] | some x ↦ follow fetch fuel (some (id x)) ]

  -- The rows below a cursor, newest first.
  abbrev pub below : List A → Option ℕ → List A
  below rows c = sort (desc id) (keep (λ a. unless_none c (λ b. ltb (id a) b)) rows)

  module _ (rows : List A) (distinct : DistinctIds id rows) (n : ℕ) where
    below-Descending : (c : Option ℕ) → Descending id (below rows c)
    below-Descending c =
        sort-Descending id _
          (DistinctIds-keep id (λ a. unless_none c (λ b. ltb (id a) b)) rows distinct)

    next_cursor :
        (c : Option ℕ) (x : A)
        → last? (take (suc n) (below rows c)) ≡ some x
        → below rows (some (id x)) ≡ drop (suc n) (below rows c)
    next_cursor c x e =
        let under = λ (a : A). unless_none c (λ b. ltb (id a) b) in
        let at_cursor =
          All-last id (λ a. under a ≡ true) (take (suc n) (below rows c)) x
            (All-take id (λ a. under a ≡ true) (suc n) (below rows c)
              (All-sort id (λ a. under a ≡ true) (keep under rows) (keep_self id under rows)))
            e in
        ap (sort (desc id)) (sym (keep-keep c x rows at_cursor))
        ∙ sym (
            keep-sort id (λ a. ltb (id a) (id x)) (keep under rows)
              (DistinctIds-keep id under rows distinct))
        ∙ keep-last id n (below rows c) x (below-Descending c) e

    pub follow-below :
        (fuel : ℕ) (c : Option ℕ)
        → length (below rows c) < fuel
        → follow (λ b. page id (suc n) b rows) fuel c ≡ below rows c
    unfolding follow page
    follow-below zero c l = absurd (omega (arith, l))
    follow-below (suc fuel) c l = elim (Option-cases (last? (take (suc n) (below rows c)))) [
      | inl e ↦
          let nothing = empty_page id n (below rows c) e in
          rw (e, last?-none id (take (suc n) (below rows c)) e) (sym nothing)
      | inr (x, e) ↦
          let narrower = next_cursor c x e in
          let shorter = ap length narrower in
          let dropped = length-drop (suc n) (below rows c) in
          let some_left = full_page id n (below rows c) x e in
          let rest =
            follow-below fuel (some (id x)) (omega (arith, l, shorter, dropped, some_left)) in
          rw e (
            ap (λ l'. take (suc n) (below rows c) ++ l') (rest ∙ narrower)
            ∙ take-drop id (suc n) (below rows c))
    ]

-- The keys of the table hold no id twice.
Unique-DistinctIds : (ds : List Delivery) → Unique ds → DistinctIds (λ d. d.id) ds
Unique-DistinctIds [] u = tt
Unique-DistinctIds (d ∷ ds) u = (apart d ds u.0, Unique-DistinctIds ds u.1)
  where
    apart :
        (e : Delivery) (es : List Delivery)
        → All (λ x. conflicts x e ≡ false) es
        → All (λ x. x.id ≢ e.id) es
    apart e [] h = tt
    apart e (x ∷ es) h = (ground arith, apart e es h.1)

-- A limit is positive, whatever was asked for.
clamp_limit-pos : (limit : ℤ) → (n : ℕ) × (clamp_limit limit ≡ suc n)
unfolding clamp_limit
clamp_limit-pos (negsuc n) = (49, refl)
clamp_limit-pos (pos zero) = (49, refl)
clamp_limit-pos (pos (suc n)) = elim (Bool-cases (ltb max_list_limit (suc n))) [
  | inl large ↦ (999, rw large (ground arith))
  | inr small ↦ (n, rw small (ground arith))
]

-- On a sound database, with a page for each row and one more: the pages of ListDeliveries, each from
-- the last id of the page before it, are together the list of all rows that match the filters and
-- are below the first cursor, newest first, whatever the limit of a page.
pub list_deliveries-pages :
    (o : DeliveryListOptions) (db : Db) (fuel : ℕ)
    → IsSound db
    → length db.deliveries < fuel
    → follow (λ d. d.id) (λ c. list_deliveries (record o { before_id = c }) db) fuel o.before_id
      ≡ below (λ d. d.id) (keep (delivery_matches o) db.deliveries) o.before_id
unfolding list_deliveries
list_deliveries-pages o db fuel sound l =
    let rows = keep (delivery_matches o) db.deliveries in
    let distinct =
      DistinctIds-keep (λ d. d.id) (delivery_matches o) db.deliveries
        (Unique-DistinctIds db.deliveries sound.unique) in
    let under = λ (d : Delivery). unless_none o.before_id (λ b. ltb d.id b) in
    let fewer = length-keep (delivery_matches o) db.deliveries in
    let fewer_still = length-keep under rows in
    let as_many = length-sort (desc (λ (d : Delivery). d.id)) (keep under rows) in
    let (n, positive) = clamp_limit-pos o.limit in
    rw positive (
      follow-below (λ d. d.id) rows distinct n fuel o.before_id
        (omega (arith, l, fewer, fewer_still, as_many)))
