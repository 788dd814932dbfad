-- ===== src/Store/Migrations/Resuming.antt =====
-- internal/store/store.go, migrate: runs that fail on the way, and the run that comes after them.

use sonata.Prelude.{
  ℕ, suc, Bool, true, false, Option, none, some, List, [], ◌∷◌, ◌++◌, Text, ok, any, same, text_ltb,
  ◌≡◌, refl, ap, ◌∙◌, sym, ◌⊎◌, inl, inr, arith, Bool-cases, ◌||◌, same_refl, Result-cases,
}
use sonata.Prelude.Sorting.{sort}
use sonata.Store.Migrations.{
  Database, Migrations, Run, insert_name, end_write, apply_source, apply_file, and_next,
  apply_files, migrate,
}

-- A run in which every call goes through.
abbrev pub smooth : Run
smooth = record { creates = true; lists = true; counts = λ k. true; commits = λ k. true }

-- The name is in schema_migrations.
abbrev pub Recorded : {C : Type 0} → Text → Database C → Type 0
Recorded name d = any (same name) d.recorded ≡ true

pub any-append : (p : Text → Bool) (xs ys : List Text) → any p (xs ++ ys) ≡ (any p xs || any p ys)
any-append p [] ys = refl
any-append p (x ∷ xs) ys = ground (arith, any-append p xs ys)

module _ {C : Type 0} (ms : Migrations C) where
  end_write-ok :
      (name : Text) (commits : Bool) (o : Option (Database C)) (d' : Database C)
      → end_write ms name commits o ≡ ok d'
      → (commits ≡ true) × (o ≡ some d')
  unfolding end_write
  end_write-ok name true (some d) d' e = (refl, ground arith)
  end_write-ok name false (some d) d' e = cc e
  end_write-ok name true none d' e = cc e
  end_write-ok name false none d' e = cc e

  insert_name-recorded :
      (name : Text) (recorded : List Text) (o : Option C) (d' : Database C)
      → insert_name ms name recorded o ≡ some d'
      → (any (same name) recorded ≡ false) × (d'.recorded ≡ recorded ++ name ∷ [])
  unfolding insert_name
  insert_name-recorded name recorded none d' e = cc e
  insert_name-recorded name recorded (some after) d' e = ground arith

  -- A file that is applied is one that was not recorded, and is recorded then.
  apply_source-recorded :
      (name : Text) (commits : Bool) (src : Option Text) (d d' : Database C)
      → apply_source ms name commits src d ≡ ok d'
      → (any (same name) d.recorded ≡ false)
        × (d'.recorded ≡ d.recorded ++ name ∷ [])
        × (apply_source ms name true src d ≡ ok d')
  unfolding apply_source
  apply_source-recorded name commits none d d' e = cc e
  apply_source-recorded name commits (some src) d d' e =
      let insert = insert_name ms name d.recorded (ms.exec src d.content) in
      let (went, same_db) = end_write-ok name commits insert d' e in
      let (fresh, more) = insert_name-recorded name d.recorded (ms.exec src d.content) d' same_db in
      (fresh, more, rw went at e)

  -- The body of the loop skips a file that is recorded, and applies one that is not.
  pub apply_file-cases :
      (run : Run) (k : ℕ) (name : Text) (d d' : Database C)
      → apply_file ms run k name d ≡ ok d'
      → (Recorded name d × (d' ≡ d))
        ⊎ ((any (same name) d.recorded ≡ false)
            × (d'.recorded ≡ d.recorded ++ name ∷ [])
            × (apply_source ms name true (ms.source name) d ≡ ok d'))
  unfolding apply_file
  apply_file-cases run k name d d' e = elim (Bool-cases (run.counts k)) [
    | inr down ↦ cc ((rw down at e))
    | inl counted ↦ elim (Bool-cases (any (same name) d.recorded)) [
      | inl old ↦ inl (old, ground arith)
      | inr fresh ↦ inr (
          apply_source-recorded name (run.commits k) (ms.source name) d d'
            (rw (counted, fresh) at e))
    ]
  ]

  -- What is recorded stays so, and the file at hand is.
  apply_file-Recorded :
      (run : Run) (k : ℕ) (name : Text) (d d' : Database C)
      → apply_file ms run k name d ≡ ok d'
      → Recorded name d' × ((other : Text) → Recorded other d → Recorded other d')
  apply_file-Recorded run k name d d' e = elim (apply_file-cases run k name d d' e) [
    | inl (old, stays) ↦ (rw stays old, λ other h. rw stays h)
    | inr (fresh, more, again) ↦ (
      rw (more, any-append (same name) d.recorded (name ∷ []), fresh, same_refl name) refl,
      λ other h. rw (more, any-append (same other) d.recorded (name ∷ []), h) refl,
    )
  ]

  pub apply_files-Recorded :
      (run : Run) (k : ℕ) (names : List Text) (d : Database C) (other : Text)
      → Recorded other d
      → Recorded other (apply_files ms run k names d).1
  unfolding apply_files and_next
  apply_files-Recorded run k [] d other h = h
  apply_files-Recorded run k (name ∷ names) d other h =
      elim (Result-cases (apply_file ms run k name d)) [
        | inl (d', e) ↦
            rw (e, and_next)
              (apply_files-Recorded run (suc k) names d' other
                ((apply_file-Recorded run k name d d' e).1 other h))
        | inr (x, e) ↦ rw (e, and_next) h
      ]

  -- What a run applies, a smooth one would too.
  apply_file-smooth :
      (run : Run) (j k : ℕ) (name : Text) (d d' : Database C)
      → apply_file ms run j name d ≡ ok d'
      → apply_file ms smooth k name d ≡ ok d'
  unfolding apply_file
  apply_file-smooth run j k name d d' e = elim (apply_file-cases run j name d d' e) [
    | inl (old, stays) ↦ rw old (ap ok (sym stays))
    | inr (fresh, more, again) ↦ rw fresh again
  ]

  pub apply_files-next :
      (run : Run) (k : ℕ) (name : Text) (names : List Text) (d d' : Database C)
      → apply_file ms run k name d ≡ ok d'
      → apply_files ms run k (name ∷ names) d ≡ apply_files ms run (suc k) names d'
  unfolding apply_files
  apply_files-next run k name names d d' e = rw (e, and_next) refl

  skips :
      (k : ℕ) (name : Text) (names : List Text) (d : Database C)
      → Recorded name d
      → apply_files ms smooth k (name ∷ names) d ≡ apply_files ms smooth (suc k) names d
  unfolding apply_file
  skips k name names d h = apply_files-next smooth k name names d d (rw h refl)

  -- After any run over the files, a smooth one ends as it would have without the first.
  apply_files-after :
      (run : Run) (k : ℕ) (names : List Text) (d : Database C)
      → apply_files ms smooth k names (apply_files ms run k names d).1
        ≡ apply_files ms smooth k names d
  unfolding apply_files
  apply_files-after run k [] d = refl
  apply_files-after run k (name ∷ names) d = elim (Result-cases (apply_file ms run k name d)) [
    | inr (x, e) ↦ rw (e, and_next) refl
    | inl (d', e) ↦
        let after = (apply_files ms run (suc k) names d').1 in
        let kept =
          apply_files-Recorded run (suc k) names d' name
            (apply_file-Recorded run k name d d' e).0 in
        rw (apply_files-next run k name names d d' e) (
          skips k name names after kept
          ∙ apply_files-after run (suc k) names d'
          ∙ sym (apply_files-next smooth k name names d d' (apply_file-smooth run k k name d d' e)))
  ]

  -- Whatever goes wrong in a run of `migrate`, and wherever it stops, a run after it in which every
  -- call goes through ends with the result and the database that it would have had without the
  -- first run.
  pub migrate-after :
      (run : Run) (d : Database C) → migrate ms smooth (migrate ms run d).1 ≡ migrate ms smooth d
  unfolding migrate
  migrate-after run d = elim (Bool-cases run.creates) [
    | inr down ↦ rw down refl
    | inl up ↦ elim (Bool-cases run.lists) [
      | inr down ↦ rw (up, down) refl
      | inl listed ↦ rw (up, listed) (apply_files-after run 0 (sort text_ltb ms.files) d)
    ]
  ]
