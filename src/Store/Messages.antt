-- ===== src/Store/Messages.antt =====
-- internal/store/messages.go, and materializeDeliveries and CompleteDelivery of deliveries.go:
-- appending messages with their deliveries.
use sonata.Prelude.{
  ℕ, suc, ◌+◌, Bool, true, false, not, ◌&&◌, ◌||◌, Option, none, some, List, [], ◌∷◌, ◌++◌, Text,
  same, is_empty, Result, ok, err, ◌>>=◌, ◌==◌, if◌then◌else◌, keep, any,
}
use sonata.Store.Types.{
  pending, done, Message, Delivery, ActionRow, Db, Subscribed, StoreError, unexpected_state,
  constraint, bad_definition, Env, Store, write,
}
use sonata.Store.Actions.{list_actions}
use sonata.Store.Deliveries.{non_empty, has_id, running, exec_update}

-- NewID, by rank.
abbrev pub new_id : Db → ℕ × Db
new_id db = (db.next_id, record db { next_id = suc db.next_id })

abbrev pub has_message_id : ℕ → Message → Bool
has_message_id id m = m.id == id

-- REFERENCES messages(id): NULL refers to nothing.
abbrev pub refers : Option ℕ → Db → Bool
refers none db = true
refers (some id) db = any (has_message_id id) db.messages

-- insertMessage, with the constraints of the table.
unfoldable pub insert_message : Message → Db → Result StoreError Db
insert_message m db =
    if any (has_message_id m.id) db.messages || not (refers m.origin_message_id db)
    then err constraint
    else ok (record db { messages = db.messages ++ m ∷ [] })

abbrev pub same_target : Delivery → Delivery → Bool
same_target d e = elim d.message_id [
  | none ↦ false
  | some m ↦ elim e.message_id [
    | none ↦ false
    | some n ↦ m == n && same d.action_name e.action_name
  ]
]

-- The INSERT of materializeDeliveries, with the constraints of the table.
unfoldable pub insert_delivery : Delivery → Db → Result StoreError Db
insert_delivery d db =
    if any (λ e. has_id d.id e || same_target d e) db.deliveries || not (refers d.message_id db)
    then err constraint
    else ok (record db { deliveries = db.deliveries ++ d ∷ [] })

abbrev pub pending_delivery : ℕ → ℕ → Text → Delivery
pending_delivery id message action = record {
  id = id;
  message_id = some message;
  action_name = action;
  action_version = none;
  state = pending;
  attempt = 0;
  not_before = none;
  pgid = none;
  stderr_tail = none;
  error = none;
  claimed_at = none;
  completed_at = none;
}

-- The loop over a definition's inputs: a correlated input stops it, as does the first input that
-- reads the message's queue.
unfoldable pub subscribes : Text → List Subscribed → Bool
subscribes queue [] = false
subscribes queue (input ∷ rest) =
    let later = subscribes queue rest in
    if is_empty input.correlate_on then (if same input.queue queue then true else later) else false

decoded : Text → Option (List Subscribed) → Result StoreError (List Subscribed)
decoded name none = err (bad_definition name)
decoded name (some inputs) = ok inputs

-- The names of the subscribed actions, over the enabled current versions by name.
unfoldable pub subscribers : Env → Text → List ActionRow → Result StoreError (List Text)
unfolding decoded subscribes
subscribers env queue [] = ok []
subscribers env queue (a ∷ rest) =
    let later = subscribers env queue rest in
    do
      inputs ← decoded a.name (env.decode_subscription a.definition)
      names ← later
      ok (if subscribes queue inputs then a.name ∷ names else names)

unfoldable pub insert_pending : ℕ → List Text → Db → Result StoreError Db
insert_pending message [] db = ok db
insert_pending message (name ∷ names) db = do
  let (id, db₁) = new_id db
  db₂ ← insert_delivery (pending_delivery id message name) db₁
  insert_pending message names db₂

abbrev pub count_names : List Text → ℕ
count_names [] = 0
count_names (x ∷ xs) = suc (count_names xs)

-- materializeDeliveries: how many deliveries it made.
unfoldable pub materialize_deliveries : Env → Message → Db → Result StoreError (ℕ × Db)
materialize_deliveries env m db = do
  names ← subscribers env m.queue (keep (λ a. a.enabled) (list_actions db))
  db' ← insert_pending m.id names db
  ok (count_names names, db')

unfoldable pub append_one : Env → Message → Db → Result StoreError (ℕ × Db)
append_one env m db = do db' ← insert_message m db; materialize_deliveries env m db'

-- AppendMessage.
unfoldable pub append_message : Env → Message → Store → Result StoreError ℕ × Store
append_message env m = write env (append_one env m)

-- The loop of CompleteDelivery over the output messages.
unfoldable pub emit : Env → List Message → Db → Result StoreError (ℕ × Db)
emit env [] db = ok (0, db)
emit env (m ∷ ms) db = do
  (n, db₁) ← append_one env m db
  (k, db₂) ← emit env ms db₁
  ok (n + k, db₂)

abbrev pub complete_row : Text → ℕ → Delivery → Delivery
complete_row stderr_tail now d = record d {
  state = done;
  stderr_tail = non_empty stderr_tail;
  completed_at = some now;
  pgid = none;
}

-- What CompleteDelivery does inside its transaction.
unfoldable pub completed : Env → ℕ → Text → List Message → ℕ → Db → Result StoreError (ℕ × Db)
completed env id stderr_tail outputs now db =
    let (n, db₁) = exec_update (running id) (complete_row stderr_tail now) db in
    if n == 0 then err unexpected_state else emit env outputs db₁

unfoldable pub complete_delivery :
    Env → ℕ → Text → List Message → ℕ → Store → Result StoreError ℕ × Store
complete_delivery env id stderr_tail outputs now =
    write env (completed env id stderr_tail outputs now)
