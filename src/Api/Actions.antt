-- ===== src/Api/Actions.antt =====
-- internal/api/actions.go: applying, listing, enabling and disabling actions; and queueList of
-- server.go.
-- Disabling waits for CancelAction, which the scheduler answers by handleCtrl: the handler is
-- modelled on the scheduler's state, without the steps that may come between the two.
pub mod Applying
pub mod Disabling
use sonata.Prelude.{
  ℕ, Bool, true, false, not, ◌||◌, Option, none, some, List, [], ◌∷◌, map, Text, codes, same,
  is_empty, Result, ok, err, if◌then◌else◌,
}
use sonata.Store.Types.{ActionRow, Store, StoreError, Env}
use sonata.Store.Actions.{Applied, apply_action, list_actions, set_action_enabled}
use sonata.Store.Queries.{QueueInfo, list_queues}
use sonata.Workflow.Definition.{Action, queues}
use sonata.Workflow.Cel.{Cel}
use sonata.Workflow.Validate.{InvalidAction}
use sonata.Workflow.Parse.{Codec, parse_json, canonical}
use sonata.Scheduler.State.{SchedEnv, World}
use sonata.Scheduler.Apply.{handle_ctrl}
use sonata.Api.{
  ApiError, invalid_request, invalid_action, unencodable, of_store, definition_required,
  name_required, to_api,
}

pub record ApplyActionResponse : Type 0 where
  pub name : Text
  pub version : ℕ
  pub changed : Bool
  pub enabled : Bool

abbrev pub apply_response : Applied → ApplyActionResponse
apply_response (a, changed) = record {
  name = a.name;
  version = a.version;
  changed = changed;
  enabled = a.enabled;
}

unfoldable pub apply_reply :
    Result StoreError Applied × Store → Result ApiError ApplyActionResponse × Store
apply_reply (ok a, s) = (ok (apply_response a), s)
apply_reply (err e, s) = (err (of_store e), s)

unfoldable pub apply_canonical :
    Env → Text → Option Text → ℕ → Store → Result ApiError ApplyActionResponse × Store
unfolding apply_reply
apply_canonical env name none now s = (err unencodable, s)
apply_canonical env name (some c) now s = apply_reply (apply_action env name c now s)

module _ {Value Document : Type 0} (codec : Codec Value Document) where
  unfoldable pub apply_parsed :
      Env → Result InvalidAction Action → ℕ → Store → Result ApiError ApplyActionResponse × Store
  unfolding apply_canonical canonical
  apply_parsed env (err e) now s = (err invalid_action, s)
  apply_parsed env (ok def) now s = apply_canonical env def.name (canonical codec def) now s

  -- actionApply.
  unfoldable pub action_apply :
      Cel → Env → Text → ℕ → Store → Result ApiError ApplyActionResponse × Store
  unfolding apply_parsed
  action_apply cel env definition now s =
      if is_empty definition || same definition (codes "null")
      then (err (invalid_request definition_required), s)
      else apply_parsed env (parse_json codec cel definition) now s

pub record ActionSummary : Type 0 where
  pub name : Text
  pub version : ℕ
  pub enabled : Bool
  pub actor : Text
  pub inputs : List Text
  pub output : Text
  pub created_at : ℕ

-- A row whose definition does not decode leaves the rest blank.
unfoldable pub summary : ActionRow → Option Action → ActionSummary
unfolding queues
summary a none = record {
  name = a.name;
  version = a.version;
  enabled = a.enabled;
  actor = [];
  inputs = [];
  output = [];
  created_at = a.created_at;
}
summary a (some def) = record {
  name = a.name;
  version = a.version;
  enabled = a.enabled;
  actor = def.actor;
  inputs = queues def;
  output = def.output;
  created_at = a.created_at;
}

-- actionList; `decode` is json.Unmarshal of a stored definition.
unfoldable pub action_list : (Text → Option Action) → Store → List ActionSummary
unfolding summary
action_list decode s = map (λ a. summary a (decode a.definition)) (list_actions s.db)

-- queueList.
unfoldable pub queue_list : Store → List QueueInfo
queue_list s = list_queues s.db

unfoldable pub cancelled_reply :
    ActionRow → Result StoreError ℕ × World → Result ApiError ActionRow × World
cancelled_reply a (ok n, w) = (ok a, w)
cancelled_reply a (err e, w) = (err (of_store e), w)

-- After SetActionEnabled: a disabled action's outstanding deliveries are cancelled.
unfoldable pub enabled_reply :
    SchedEnv
    → Bool
    → ℕ
    → Result StoreError ActionRow × Store
    → World
    → Result ApiError ActionRow × World
unfolding cancelled_reply
enabled_reply env enabled now (err e, s) w = (err (of_store e), record w { store = s })
enabled_reply env true now (ok a, s) w = (ok a, record w { store = s })
enabled_reply env false now (ok a, s) w =
    cancelled_reply a (handle_ctrl env a.name now (record w { store = s }))

-- setActionEnabled.
unfoldable pub set_enabled : SchedEnv → Text → Bool → ℕ → World → Result ApiError ActionRow × World
unfolding enabled_reply
set_enabled env name enabled now w =
    if is_empty name
    then (err (invalid_request name_required), w)
    else enabled_reply env enabled now (set_action_enabled env.store_env name enabled w.store) w
