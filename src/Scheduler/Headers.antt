-- ===== src/Scheduler/Headers.antt =====
-- internal/scheduler/scheduler.go: the hops header, the input that reads a queue, and the outputs
-- of an execution.
pub mod Lineage
use sonata.Prelude.{
  ℕ, suc, Bool, false, ◌&&◌, ◌||◌, Option, none, some, List, [], ◌∷◌, Text, codes, same, ◌==◌,
  if◌then◌else◌,
}
use sonata.Prelude.Int.{ℤ, pos, ◌+ℤ◌}
use sonata.Store.Types.{number, null, other, Headers, Message, Db}
use sonata.Store.Messages.{new_id}
use sonata.Workflow.Definition.{Input, Action}

-- encoding/json matches a member with the field `hops` up to case folding: the long s (U+017F)
-- folds to `s`.
unfoldable pub is_hops : Text → Bool
is_hops (a ∷ b ∷ c ∷ d ∷ []) =
    (a == b'h' || a == b'H')
    && (b == b'o' || b == b'O')
    && (c == b'p' || c == b'P')
    && (d == b's' || d == b'S' || d == 0x17f)
is_hops _ = false

-- Reading the members in order into the field: a later one overwrites, null clears, and a value
-- that is no number is an error.
unfoldable pub read_hops : Option ℤ → Headers → Option (Option ℤ)
unfolding is_hops
read_hops field [] = some field
read_hops field ((name, number n) ∷ rest) = read_hops (if is_hops name then some n else field) rest
read_hops field ((name, null) ∷ rest) = read_hops (if is_hops name then none else field) rest
read_hops field ((name, other t) ∷ rest) =
    let later = read_hops field rest in if is_hops name then none else later

unfoldable pub hops_or_zero : Option (Option ℤ) → Option ℤ
hops_or_zero none = none
hops_or_zero (some none) = some (pos 0)
hops_or_zero (some (some n)) = some n

-- messageHops; `none` is its error.
unfoldable pub message_hops : Headers → Option ℤ
unfolding hops_or_zero read_hops
message_hops headers = hops_or_zero (read_hops none headers)

shift_index : Option ℕ → Option ℕ
shift_index none = none
shift_index (some i) = some (suc i)

-- The loop of inputIndex; `none` is -1.
unfoldable pub index_of : Text → List Input → Option ℕ
unfolding shift_index
index_of queue [] = none
index_of queue (input ∷ rest) =
    let later = index_of queue rest in if same input.queue queue then some 0 else shift_index later

unfoldable pub input_index : Action → Text → Option ℕ
unfolding index_of
input_index def queue = index_of queue def.inputs

unfoldable pub or_zero : Option ℤ → ℤ
or_zero none = pos 0
or_zero (some n) = n

-- The headers of an output: the hops of its input, and one more.
unfoldable pub next_headers : Message → Headers
unfolding or_zero message_hops ◌+ℤ◌
next_headers m = (codes "hops", number (or_zero (message_hops m.headers) +ℤ pos 1)) ∷ []

unfoldable pub output : Message → Text → Text → ℕ → ℕ → ℕ → Text → Message
unfolding next_headers
output m queue action version now id line = record {
  id = id;
  queue = queue;
  payload = line;
  headers = next_headers m;
  trace_id = m.trace_id;
  origin_action = some action;
  origin_action_version = some version;
  origin_message_id = some m.id;
  created_at = now;
}

-- buildOutputs: a message for each line, each under a new id.
unfoldable pub build_outputs : Message → Text → Text → ℕ → ℕ → List Text → Db → List Message × Db
unfolding output
build_outputs m queue action version now [] db = ([], db)
build_outputs m queue action version now (line ∷ lines) db =
    let (id, db₁) = new_id db in
    let (rest, db₂) = build_outputs m queue action version now lines db₁ in
    (output m queue action version now id line ∷ rest, db₂)
