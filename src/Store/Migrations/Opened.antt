-- ===== src/Store/Migrations/Opened.antt =====
-- internal/store/store.go: what migrate and Open leave in the file, and the handles of Open.
use mathlib.Core.List.{append-nil, append_assoc}
use sonata.Prelude.{
  ℕ, suc, true, false, not, Option, none, some, List, [], ◌∷◌, ◌++◌, Text, Result, ok, err, any,
  same, text_ltb, ◌≡◌, refl, ap, ◌∙◌, sym, ◌⊎◌, inl, inr, arith, Bool-cases, same_refl,
  Result-cases, keep, count, All, ◌≤◌, same-false, none_counted,
}
use sonata.Prelude.Sorting.{sort, count-sort}
use sonata.Store.Migrations.{
  Database, Migrations, Run, MigrateError, and_next, apply_file, apply_files, migrate, Handles,
  no_handles, close, Opening, OpenError, refused, no_answer, answers, open_handle, after_migrate,
  with_writer, with_dir, open_store,
}
use sonata.Store.Migrations.Resuming.{Recorded, any-append, apply_file-cases, apply_files-next}

-- No text stands twice in the list.
abbrev pub Distinct : List Text → Type 0
Distinct names = (x : Text) → count (same x) names ≤ 1

-- The names that are not recorded yet, in order.
abbrev pub missing : List Text → List Text → List Text
missing recorded names = keep (λ name. not (any (same name) recorded)) names

Distinct-head : (x : Text) (xs : List Text) → Distinct (x ∷ xs) → All (λ y. same x y ≡ false) xs
Distinct-head x xs h =
    (none_counted (same x) xs).0 (let one = (rw (same_refl x) at (h x)) in omega (arith, one))

Distinct-tail : (x : Text) (xs : List Text) → Distinct (x ∷ xs) → Distinct xs
Distinct-tail x xs h y = let one = h y in ground arith

same_flip : (s t : Text) → same s t ≡ false → same t s ≡ false
same_flip s t e = (same-false t s).1 (λ f. (same-false s t).0 e (sym f))

-- Recording a name that is not in a list leaves what the list misses.
missing-other :
    (recorded : List Text) (x : Text) (names : List Text)
    → All (λ y. same x y ≡ false) names
    → missing (recorded ++ x ∷ []) names ≡ missing recorded names
missing-other recorded x [] h = refl
missing-other recorded x (y ∷ names) h = ground (
  arith,
  any-append (same y) recorded (x ∷ []),
  same_flip x y h.0,
  missing-other recorded x names h.1,
)

-- Both handles are open.
abbrev pub both_handles : Handles
both_handles = record { writer = true; reader = true }

close-handles : (reader writer : Option Text) → (close reader writer).1 ≡ no_handles
unfolding close
close-handles reader none = refl
close-handles reader (some e) = refl

module _ {C : Type 0} (ms : Migrations C) where
  -- A run that records some of the missing names, in order: all of them if it succeeds.
  abbrev pub Records : List Text → Database C → Result MigrateError (Unit {0}) × Database C → Type 0
  Records names d (r, d') =
      (applied : List Text) × (rest : List Text) × (missing d.recorded names ≡ applied ++ rest)
      × (d'.recorded ≡ d.recorded ++ applied)
      × (r ≡ ok tt → rest ≡ [])

  skipped-Records :
      (name : Text) (names : List Text) (d d' : Database C)
      (out : Result MigrateError (Unit {0}) × Database C)
      → Recorded name d
      → d' ≡ d
      → Records names d' out
      → Records (name ∷ names) d out
  skipped-Records name names d d' out old stays (applied, rest, all, more, ends) =
      (applied, rest, rw old (rw stays at all), rw stays at more, ends)

  applied-Records :
      (name : Text) (names : List Text) (d d' : Database C)
      (out : Result MigrateError (Unit {0}) × Database C)
      → Distinct (name ∷ names)
      → any (same name) d.recorded ≡ false
      → d'.recorded ≡ d.recorded ++ name ∷ []
      → Records names d' out
      → Records (name ∷ names) d out
  applied-Records name names d d' out h fresh more (applied, rest, all, then_more, ends) =
      let same_rest = missing-other d.recorded name names (Distinct-head name names h) in
      (
        name ∷ applied,
        rest,
        rw fresh (ap (λ l. name ∷ l) (sym same_rest ∙ (rw more at all))),
        then_more ∙ ap (λ l. l ++ applied) more ∙ append_assoc d.recorded (name ∷ []) applied,
        ends,
      )

  apply_files-Records :
      (run : Run) (k : ℕ) (names : List Text) (d : Database C)
      → Distinct names
      → Records names d (apply_files ms run k names d)
  unfolding apply_files
  apply_files-Records run k [] d h = ([], [], refl, sym (append-nil d.recorded), λ e. refl)
  apply_files-Records run k (name ∷ names) d h = elim (Result-cases (apply_file ms run k name d)) [
    | inr (x, e) ↦
        rw (e, and_next)
          ([], missing d.recorded (name ∷ names), refl, sym (append-nil d.recorded), λ f. cc f)
    | inl (d', e) ↦
        let later = apply_files ms run (suc k) names d' in
        let so_far = apply_files-Records run (suc k) names d' (Distinct-tail name names h) in
        rw (apply_files-next ms run k name names d d' e)
          (elim (apply_file-cases ms run k name d d' e) [
            | inl (old, stays) ↦ skipped-Records name names d d' later old stays so_far
            | inr (fresh, more, again) ↦ applied-Records name names d d' later h fresh more so_far
          ])
  ]

  -- A run records missing files in filename order: a first part of them where it fails, and all of
  -- them where it succeeds.
  migrate-Records :
      (run : Run) (d : Database C)
      → Distinct ms.files
      → Records (sort text_ltb ms.files) d (migrate ms run d)
  unfolding migrate
  migrate-Records run d h =
      let files = sort text_ltb ms.files in
      let nothing : Records files d (err MigrateError.create_failed, d) =
        ([], missing d.recorded files, refl, sym (append-nil d.recorded), λ f. cc f) in
      let unlisted : Records files d (err MigrateError.read_dir_failed, d) =
        ([], missing d.recorded files, refl, sym (append-nil d.recorded), λ f. cc f) in
      elim (Bool-cases run.creates) [
        | inr down ↦ rw down nothing
        | inl up ↦ elim (Bool-cases run.lists) [
          | inr down ↦ rw (up, down) unlisted
          | inl listed ↦
              rw (up, listed)
                (apply_files-Records run 0 files d
                  (λ x. rw (count-sort text_ltb (same x) ms.files) (h x)))
        ]
      ]

  -- The result and the handles agree, and the names that are missing become recorded in order, all
  -- of them where there is no error.
  abbrev pub Opens : Database C → Result OpenError (Unit {0}) × Handles × Database C → Type 0
  Opens d (r, handles, d') =
      (applied : List Text) × (rest : List Text) × (missing d.recorded (sort text_ltb ms.files)
        ≡ applied ++ rest)
      × (d'.recorded ≡ d.recorded ++ applied)
      × (((r ≡ ok tt) × (handles ≡ both_handles) × (rest ≡ []))
          ⊎ ((e : OpenError) × (r ≡ err e) × (handles ≡ no_handles)))

  untouched-Opens : (e : OpenError) (d : Database C) → Opens d (err e, no_handles, d)
  untouched-Opens e d = (
    [],
    missing d.recorded (sort text_ltb ms.files),
    refl,
    sym (append-nil d.recorded),
    inr (e, refl, refl),
  )

  migrated-Opens :
      (o : Opening) (d : Database C) (out : Result MigrateError (Unit {0}) × Database C)
      → Records (sort text_ltb ms.files) d out
      → Opens d (after_migrate ms o out)
  unfolding after_migrate close
  migrated-Opens o d (ok tt, d') (applied, rest, all, more, ends) =
      (applied, rest, all, more, inl (refl, refl, ends refl))
  migrated-Opens o d (err e, d') (applied, rest, all, more, ends) = (
    applied,
    rest,
    all,
    more,
    inr (OpenError.migrate_failed e, refl, close-handles o.reader_closes o.writer_closes),
  )

  -- Open ends with both handles open and every embedded migration recorded, or with an error and no
  -- handle open. Either way it appends to the names on record a first part of those that are
  -- missing, in filename order. The embedded files have different names.
  pub open_store-Opens :
      (o : Opening) (d : Database C) → Distinct ms.files → Opens d (open_store ms o d)
  unfolding open_store open_handle with_dir with_writer
  open_store-Opens o d h = elim (Bool-cases o.makes_dir) [
    | inr down ↦ rw down (untouched-Opens OpenError.dir_failed d)
    | inl made ↦ rw made (elim o.dial_writer as (λ w. Opens d (with_dir ms o (open_handle w) d)) [
      | refused ↦ untouched-Opens OpenError.open_failed d
      | no_answer ↦ untouched-Opens OpenError.ping_failed d
      | answers ↦ elim o.dial_reader as (λ r. Opens d (with_writer ms o (open_handle r) d)) [
        | refused ↦ untouched-Opens OpenError.open_failed d
        | no_answer ↦ untouched-Opens OpenError.ping_failed d
        | answers ↦ migrated-Opens o d (migrate ms o.run d) (migrate-Records o.run d h)
      ]
    ])
  ]
