-- ===== src/Store/Actions.antt =====
-- internal/store/actions.go: the registry of action versions.
use sonata.Prelude.{
  ℕ, ◌+◌, Bool, true, false, not, ◌&&◌, Option, none, some, List, [], ◌∷◌, ◌++◌, Text, same,
  text_ltb, Result, ok, err, ◌==◌, ltb, leb, if◌then◌else◌, keep, any, find?, update,
}
use sonata.Prelude.Sorting.{sort}
use sonata.Store.Types.{ActionRow, Db, StoreError, not_found, constraint, Env, Store, write}

abbrev pub named : Text → ActionRow → Bool
named name a = same a.name name

abbrev pub is_version : Text → ℕ → ActionRow → Bool
is_version name version a = named name a && a.version == version

unfoldable pub newer : ActionRow → Option ActionRow → Option ActionRow
newer a none = some a
newer a (some b) = if leb b.version a.version then some a else some b

-- `ORDER BY version DESC LIMIT 1`.
unfoldable pub newest : List ActionRow → Option ActionRow
unfolding newer
newest [] = none
newest (a ∷ rest) = newer a (newest rest)

unfoldable pub current_action : Text → Db → Option ActionRow
unfolding newest
current_action name db = newest (keep (named name) db.actions)

-- PRIMARY KEY (name, version).
unfoldable pub insert_action : ActionRow → Db → Result StoreError Db
insert_action a db =
    if any (is_version a.name a.version) db.actions
    then err constraint
    else ok (record db { actions = db.actions ++ a ∷ [] })

-- The row that ApplyAction inserts after the current one, or as the first.
unfoldable pub next_row : Text → Text → ℕ → Option ActionRow → ActionRow
next_row name definition now none = record {
  name = name;
  version = 1;
  definition = definition;
  enabled = true;
  created_at = now;
}
next_row name definition now (some cur) = record {
  name = name;
  version = cur.version + 1;
  definition = definition;
  enabled = cur.enabled;
  created_at = now;
}

-- The result of ApplyAction: the row, and whether it is new.
abbrev pub Applied : Type 0
Applied = ActionRow × Bool

unfoldable pub insert_next : ActionRow → Db → Result StoreError (Applied × Db)
unfolding insert_action
insert_next next db = elim (insert_action next db) [
  | ok db' ↦ ok ((next, true), db')
  | err e ↦ err e
]

unfoldable pub apply_to : Text → Text → ℕ → Option ActionRow → Db → Result StoreError (Applied × Db)
unfolding insert_next next_row
apply_to name definition now none db = insert_next (next_row name definition now none) db
apply_to name definition now (some cur) db =
    if same cur.definition definition
    then ok ((cur, false), db)
    else insert_next (next_row name definition now (some cur)) db

-- What ApplyAction does inside its transaction.
unfoldable pub applied : Text → Text → ℕ → Db → Result StoreError (Applied × Db)
unfolding apply_to current_action
applied name definition now db = apply_to name definition now (current_action name db) db

unfoldable pub apply_action : Env → Text → Text → ℕ → Store → Result StoreError Applied × Store
unfolding applied write
apply_action env name definition now = write env (applied name definition now)

or_not_found {ℓ} : {A : Type ℓ} → Option A → Result StoreError A
or_not_found none = err not_found
or_not_found (some a) = ok a

-- GetAction: version 0 stands for the current one.
unfoldable pub get_action : Text → ℕ → Db → Result StoreError ActionRow
unfolding or_not_found current_action
get_action name version db =
    or_not_found
      (if version == 0 then current_action name db else find? (is_version name version) db.actions)

-- A row is the current one when no row of its name has a larger version.
abbrev pub is_current : List ActionRow → ActionRow → Bool
is_current rows a = not (any (λ b. named a.name b && ltb a.version b.version) rows)

abbrev pub by_name : ActionRow → ActionRow → Bool
by_name a b = text_ltb a.name b.name

-- ListActions: the current version of every action, by name.
unfoldable pub list_actions : Db → List ActionRow
unfolding sort
list_actions db = sort by_name (keep (is_current db.actions) db.actions)

abbrev pub by_version_desc : ActionRow → ActionRow → Bool
by_version_desc a b = ltb b.version a.version

non_empty_list : List ActionRow → Result StoreError (List ActionRow)
non_empty_list [] = err not_found
non_empty_list (a ∷ rest) = ok (a ∷ rest)

-- ListActionVersions: every version of one action, newest first.
unfoldable pub list_action_versions : Text → Db → Result StoreError (List ActionRow)
unfolding sort non_empty_list
list_action_versions name db = non_empty_list (sort by_version_desc (keep (named name) db.actions))

abbrev pub enable_row : Bool → ActionRow → ActionRow
enable_row enabled a = record a { enabled = enabled }

unfoldable pub enabled_at : Text → Bool → Option ActionRow → Db → Result StoreError (ActionRow × Db)
enabled_at name enabled none db = err not_found
enabled_at name enabled (some cur) db =
    let rows = update (is_version name cur.version) (enable_row enabled) db.actions in
    elim (find? (is_version name cur.version) rows) [
      | none ↦ err not_found
      | some a ↦ ok (a, record db { actions = rows })
    ]

-- What SetActionEnabled does inside its transaction: it writes the row of the largest version.
unfoldable pub enabled_in : Text → Bool → Db → Result StoreError (ActionRow × Db)
unfolding enabled_at current_action
enabled_in name enabled db = enabled_at name enabled (current_action name db) db

unfoldable pub set_action_enabled : Env → Text → Bool → Store → Result StoreError ActionRow × Store
unfolding enabled_in write
set_action_enabled env name enabled = write env (enabled_in name enabled)
