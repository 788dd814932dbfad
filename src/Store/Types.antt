-- ===== src/Store/Types.antt =====
-- internal/store: the rows of the three tables, and the write transaction of store.go.
-- An id stands for its rank in the order of the texts that NewID returns (Store/Id.antt): a larger
-- id is a later one. A time is its number of nanoseconds since the epoch; where SQL compares two
-- times it compares their texts (Store/Timestamp.antt).
use sonata.Prelude.{ℕ, suc, Bool, true, false, Option, List, Text, Result, ok, err}
use sonata.Prelude.Int.{ℤ}

pub data State : Type 0 where
  pending claimed done failed filtered dead cancelled : State

-- `state = ?` of the SQL statements.
abbrev pub is_state : State → State → Bool
is_state pending pending = true
is_state claimed claimed = true
is_state done done = true
is_state failed failed = true
is_state filtered filtered = true
is_state dead dead = true
is_state cancelled cancelled = true
is_state _ _ = false

-- The texts of the `error` column, one constructor for each format of the callers.
pub data Reason : Type 0 where
  no_reason : Reason
  superseded : ℕ → Reason
  bad_headers hop_limit_exceeded compile_filter filter_input bad_filter : Reason
  action_disabled daemon_restarted : Reason
  execution : Text → Reason
  stdout_line : ℕ → Reason

-- A JSON value of a message's headers. A number is kept as `int(x)` of its float64, which is all
-- that the program reads of it.
pub data HeaderValue : Type 0 where
  number : ℤ → HeaderValue
  null : HeaderValue
  other : Text → HeaderValue

-- The members of the headers object, in document order.
abbrev pub Headers : Type 0
Headers = List (Text × HeaderValue)

pub record Message : Type 0 where
  pub id : ℕ
  pub queue : Text
  pub payload : Text
  pub headers : Headers
  pub trace_id : ℕ
  pub origin_action : Option Text
  pub origin_action_version : Option ℕ
  pub origin_message_id : Option ℕ
  pub created_at : ℕ

pub record Delivery : Type 0 where
  pub id : ℕ
  pub message_id : Option ℕ
  pub action_name : Text
  pub action_version : Option ℕ
  pub state : State
  pub attempt : ℕ
  pub not_before : Option ℕ
  pub pgid : Option ℕ
  pub stderr_tail : Option Text
  pub error : Option Reason
  pub claimed_at : Option ℕ
  pub completed_at : Option ℕ

-- One version of a registered action; its definition is opaque text.
pub record ActionRow : Type 0 where
  pub name : Text
  pub version : ℕ
  pub definition : Text
  pub enabled : Bool
  pub created_at : ℕ

pub record Db : Type 0 where
  pub messages : List Message
  pub actions : List ActionRow
  pub deliveries : List Delivery
  pub next_id : ℕ

-- The slice of a definition that materialization decodes.
pub record Subscribed : Type 0 where
  pub queue : Text
  pub correlate_on : Text

pub data StoreError : Type 0 where
  not_found : StoreError
  not_dead : State → StoreError
  unexpected_state : StoreError
  constraint : StoreError
  bad_definition : Text → StoreError
  write_failed : StoreError

-- What the store takes from outside: whether its k-th write transaction begins and commits, and
-- the decoding of a stored definition by encoding/json.
pub record Env : Type 0 where
  pub commits : ℕ → Bool
  pub decode_subscription : Text → Option (List Subscribed)

-- The database, and the number of write transactions so far.
pub record Store : Type 0 where
  pub db : Db
  pub writes : ℕ

unfoldable pub settle {ℓ} :
    {A : Type ℓ} → Bool → Result StoreError (A × Db) → Db → ℕ → Result StoreError A × Store
settle false r before n = (err write_failed, record { db = before; writes = n })
settle true (ok (a, after)) before n = (ok a, record { db = after; writes = n })
settle true (err e) before n = (err e, record { db = before; writes = n })

-- `write`: the function's changes are kept when it returns no error and the commit goes through,
-- and rolled back otherwise.
unfoldable pub write {ℓ} :
    {A : Type ℓ} → Env → (Db → Result StoreError (A × Db)) → Store → Result StoreError A × Store
unfolding settle
write env fn s = settle (env.commits s.writes) (fn s.db) s.db (suc s.writes)
