-- ===== src/Daemon/Registry.antt =====
-- The writes of internal/store/actions.go beside the deliveries.
use sonata.Store.Growing.{write-Ends}
use sonata.Prelude.{
  ℕ, ◌≡◌, refl, Bool, Option, none, some, Text, same, is_empty, Result, arith, Ends, Bool-cases,
  inl, inr,
}
use sonata.Store.Types.{ActionRow, Store, StoreError, Db, Env, write}
use sonata.Store.Actions.{
  apply_action, applied, apply_to, insert_next, current_action, set_action_enabled, enabled_in,
  enabled_at,
}
use sonata.Api.{enable_action}

-- A database with the same deliveries and the same next id.
abbrev pub SameRows : Db → Db → Type 0
SameRows db db' = (db'.deliveries ≡ db.deliveries) × (db'.next_id ≡ db.next_id)

-- A transaction that keeps the deliveries.
write-SameRows {ℓ} :
    {A : Type ℓ} (env : Env) (f : Db → Result StoreError (A × Db)) (s : Store)
    → Ends (λ r. SameRows s.db r.1) (f s.db)
    → SameRows s.db (write env f s).1.db
write-SameRows env f s h = write-Ends (SameRows s.db) env f s (refl, refl) h

insert_next-SameRows :
    (row : ActionRow) (db : Db) → Ends (λ r. SameRows db r.1) (insert_next row db)
unfolding insert_next
insert_next-SameRows row db = ground arith

apply_to-SameRows :
    (name definition : Text) (now : ℕ) (o : Option ActionRow) (db : Db)
    → Ends (λ r. SameRows db r.1) (apply_to name definition now o db)
unfolding apply_to
apply_to-SameRows name definition now none db = insert_next-SameRows _ db
apply_to-SameRows name definition now (some cur) db =
    elim (Bool-cases (same cur.definition definition)) [
      | inl e ↦ rw e (refl, refl)
      | inr e ↦ rw e (insert_next-SameRows _ db)
    ]

enabled_at-SameRows :
    (name : Text) (enabled : Bool) (o : Option ActionRow) (db : Db)
    → Ends (λ r. SameRows db r.1) (enabled_at name enabled o db)
unfolding enabled_at
enabled_at-SameRows name enabled none db = tt
enabled_at-SameRows name enabled (some cur) db = ground arith

pub apply_action-SameRows :
    (env : Env) (name definition : Text) (now : ℕ) (s : Store)
    → SameRows s.db (apply_action env name definition now s).1.db
unfolding apply_action applied
apply_action-SameRows env name definition now s =
    write-SameRows env (applied name definition now) s
      (apply_to-SameRows name definition now (current_action name s.db) s.db)

pub enable_action-SameRows :
    (env : Env) (name : Text) (enabled : Bool) (s : Store)
    → SameRows s.db (enable_action env name enabled s).1.db
unfolding enable_action set_action_enabled enabled_in
enable_action-SameRows env name enabled s = elim (Bool-cases (is_empty name)) [
  | inl e ↦ rw e (refl, refl)
  | inr e ↦ rw e (
      write-SameRows env (enabled_in name enabled) s
        (enabled_at-SameRows name enabled (current_action name s.db) s.db))
]
