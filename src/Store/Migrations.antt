-- ===== src/Store/Migrations.antt =====
-- internal/store/store.go: Open, Close and migrate.
-- SQLite and the embedded files are parameters: what the statements of a file do to the database,
-- and which calls fail.
pub mod Resuming
pub mod Opened
use sonata.Prelude.{
  ℕ, suc, Bool, true, false, Option, none, some, List, [], ◌∷◌, ◌++◌, Text, Result, ok, err, any,
  same, text_ltb, if◌then◌else◌,
}
use sonata.Prelude.Sorting.{sort}

-- The names in schema_migrations, in the order of their insertion, and the rest of the file. A file
-- without that table is one that has no name in it.
pub record Database (C : Type 0) : Type 0 where
  pub recorded : List Text
  pub content : C

-- The embedded files in the order of ReadDir, their texts, and what executing a text does.
pub record Migrations (C : Type 0) : Type 0 where
  pub files : List Text
  pub source : Text → Option Text
  pub exec : Text → C → Option C

-- Which calls of one run go through: making the table, listing the files, and for its k-th file the
-- count of its name and the transaction (its begin and its commit).
pub record Run : Type 0 where
  pub creates : Bool
  pub lists : Bool
  pub counts : ℕ → Bool
  pub commits : ℕ → Bool

pub data MigrateError : Type 0 where
  create_failed read_dir_failed : MigrateError
  check_failed read_failed apply_failed : Text → MigrateError

module _ {C : Type 0} (ms : Migrations C) where
  -- The INSERT: `name` is the table's primary key.
  unfoldable pub insert_name : Text → List Text → Option C → Option (Database C)
  insert_name name recorded none = none
  insert_name name recorded (some after) =
      if any (same name) recorded
      then none
      else some (record { recorded = recorded ++ name ∷ []; content = after })

  -- The end of the transaction: an error rolls back, and so does a commit that fails.
  unfoldable pub end_write : Text → Bool → Option (Database C) → Result MigrateError (Database C)
  end_write name true (some d) = ok d
  end_write name false (some d) = err (apply_failed name)
  end_write name commits none = err (apply_failed name)

  unfoldable pub apply_source :
      Text → Bool → Option Text → Database C → Result MigrateError (Database C)
  unfolding end_write insert_name
  apply_source name commits none d = err (read_failed name)
  apply_source name commits (some src) d =
      end_write name commits (insert_name name d.recorded (ms.exec src d.content))

  -- The body of the loop, for its k-th file.
  unfoldable pub apply_file : Run → ℕ → Text → Database C → Result MigrateError (Database C)
  unfolding apply_source
  apply_file run k name d =
      if run.counts k
      then (if any (same name) d.recorded
          then ok d
          else apply_source name (run.commits k) (ms.source name) d)
      else err (check_failed name)

  -- What an earlier transaction has committed stays after an error.
  unfoldable pub and_next :
      Result MigrateError (Database C)
      → Database C
      → (Database C → Result MigrateError (Unit {0}) × Database C)
      → Result MigrateError (Unit {0}) × Database C
  and_next (ok d') d rest = rest d'
  and_next (err e) d rest = (err e, d)

  unfoldable pub apply_files :
      Run → ℕ → List Text → Database C → Result MigrateError (Unit {0}) × Database C
  unfolding and_next apply_file
  apply_files run k [] d = (ok tt, d)
  apply_files run k (name ∷ names) d =
      and_next (apply_file run k name d) d (apply_files run (suc k) names)

  unfoldable pub migrate : Run → Database C → Result MigrateError (Unit {0}) × Database C
  unfolding apply_files sort text_ltb
  migrate run d =
      if run.creates
      then (if run.lists
          then apply_files run 0 (sort text_ltb ms.files) d
          else (err read_dir_failed, d))
      else (err create_failed, d)

-- Which of the two handles of a Store are open.
pub record Handles : Type 0 where
  pub writer : Bool
  pub reader : Bool

abbrev pub no_handles : Handles
no_handles = record { writer = false; reader = false }

-- How opening a handle goes: sql.Open fails, Ping fails, or neither.
pub data Dial : Type 0 where
  refused no_answer answers : Dial

pub data OpenError : Type 0 where
  dir_failed open_failed ping_failed : OpenError
  migrate_failed : MigrateError → OpenError

-- `open`: a handle whose Ping fails is closed.
unfoldable pub open_handle : Dial → Result OpenError (Unit {0}) × Bool
open_handle refused = (err open_failed, false)
open_handle no_answer = (err ping_failed, false)
open_handle answers = (ok tt, true)

-- Close, from the errors of closing the reader and the writer.
unfoldable pub close : Option Text → Option Text → Option Text × Handles
close reader (some e) = (some e, no_handles)
close reader none = (reader, no_handles)

-- How the calls of Open go, and what closing a handle answers.
pub record Opening : Type 0 where
  pub makes_dir : Bool
  pub dial_writer : Dial
  pub dial_reader : Dial
  pub run : Run
  pub reader_closes : Option Text
  pub writer_closes : Option Text

module _ {C : Type 0} (ms : Migrations C) where
  unfoldable pub after_migrate :
      Opening
      → Result MigrateError (Unit {0}) × Database C
      → Result OpenError (Unit {0}) × Handles × Database C
  unfolding close
  after_migrate o (ok u, d) = (ok tt, record { writer = true; reader = true }, d)
  after_migrate o (err e, d) =
      (err (migrate_failed e), (close o.reader_closes o.writer_closes).1, d)

  unfoldable pub with_writer :
      Opening
      → Result OpenError (Unit {0}) × Bool
      → Database C
      → Result OpenError (Unit {0}) × Handles × Database C
  unfolding after_migrate
  with_writer o (err e, r) d = (err e, record { writer = false; reader = r }, d)
  with_writer o (ok u, r) d = after_migrate o (migrate ms o.run d)

  unfoldable pub with_dir :
      Opening
      → Result OpenError (Unit {0}) × Bool
      → Database C
      → Result OpenError (Unit {0}) × Handles × Database C
  unfolding with_writer open_handle
  with_dir o (err e, w) d = (err e, record { writer = w; reader = false }, d)
  with_dir o (ok u, w) d = with_writer o (open_handle o.dial_reader) d

  -- Open: its result, the handles that it leaves open, and the file.
  unfoldable pub open_store :
      Opening → Database C → Result OpenError (Unit {0}) × Handles × Database C
  unfolding with_dir open_handle
  open_store o d =
      if o.makes_dir
      then with_dir o (open_handle o.dial_writer) d
      else (err dir_failed, no_handles, d)
