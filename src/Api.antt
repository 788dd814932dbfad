-- ===== src/Api.antt =====
-- internal/api: the handlers behind the endpoints. A request is its decoded struct; the transport
-- is left out. A handler returns its response or error, the new store, and how many deliveries it
-- still has to announce to the scheduler by WorkAdded.
pub mod Actions
pub mod Transport
pub mod Client
pub mod Server
use sonata.Prelude.{
  ℕ, Bool, not, ◌||◌, Option, none, some, List, [], ◌∷◌, Text, codes, same, is_empty, text_ltb,
  Result, ok, err, if◌then◌else◌,
}
use sonata.Prelude.Int.{ℤ, pos, negsuc}
use sonata.Store.Types.{
  HeaderValue, number, Headers, Message, Delivery, ActionRow, Db, Store, StoreError, not_found,
  not_dead, Env,
}
use sonata.Store.Deliveries.{replay_delivery}
use sonata.Store.Messages.{new_id, append_message}
use sonata.Store.Actions.{get_action, set_action_enabled}
use sonata.Store.Queries.{
  DeliveryListOptions, list_deliveries, ListOptions, list_messages, get_delivery, get_message,
}

pub data Invalid : Type 0 where
  queue_required payload_required payload_not_json id_required name_required : Invalid
  negative_limit negative_version definition_required : Invalid

pub data ApiError : Type 0 where
  invalid_request : Invalid → ApiError
  invalid_action : ApiError
  -- The definition cannot be encoded.
  unencodable : ApiError
  of_store : StoreError → ApiError

-- errorStatus: the HTTP status and the machine code.
unfoldable pub error_status : ApiError → ℕ × Text
error_status (of_store not_found) = (404, codes "not_found")
error_status invalid_action = (400, codes "invalid_action")
error_status (of_store (not_dead s)) = (409, codes "not_dead")
error_status (invalid_request why) = (400, codes "invalid_request")
error_status unencodable = (500, codes "internal")
error_status (of_store e) = (500, codes "internal")

-- The request's headers are a map: its members, by name, as json.Marshal writes them.
pub record SendMessageRequest : Type 0 where
  pub queue : Text
  pub payload : Text
  pub headers : Headers

-- `headers[name] = value` in a map that is written out by name.
unfoldable pub set_header : Text → HeaderValue → Headers → Headers
set_header name value [] = (name, value) ∷ []
set_header name value ((n, v) ∷ rest) =
    let later = set_header name value rest in
    if same n name
    then (name, value) ∷ rest
    else if text_ltb name n
    then (name, value) ∷ (n, v) ∷ rest
    else (n, v) ∷ later

-- Ingress stamping.
unfoldable pub stamped : Headers → Headers
unfolding set_header
stamped headers = set_header (codes "hops") (number (pos 0)) headers

-- The message that messageSend builds, with a fresh id and a fresh trace.
unfoldable pub ingress : SendMessageRequest → ℕ → Db → Message × Db
unfolding stamped
ingress req now db =
    let (id, db₁) = new_id db in
    let (trace, db₂) = new_id db₁ in
    (
      record {
        id = id;
        queue = req.queue;
        payload = req.payload;
        headers = stamped req.headers;
        trace_id = trace;
        origin_action = none;
        origin_action_version = none;
        origin_message_id = none;
        created_at = now;
      },
      db₂,
    )

-- What a handler leaves: its reply, the store, and the deliveries not yet announced.
pub record Handled {ℓ} (A : Type ℓ) : Type ℓ where
  pub reply : Result ApiError A
  pub store : Store
  pub announce : ℕ

unfoldable pub sent : Message → Result StoreError ℕ × Store → Handled Message
sent m (ok created, s) = record { reply = ok m; store = s; announce = created }
sent m (err e, s) = record { reply = err (of_store e); store = s; announce = 0 }

refused {ℓ} : {A : Type ℓ} → Invalid → Store → Handled A
refused why s = record { reply = err (invalid_request why); store = s; announce = 0 }

-- messageSend.
unfoldable pub message_send : Env → (Text → Bool) → SendMessageRequest → ℕ → Store → Handled Message
unfolding refused sent ingress
message_send env valid req now s =
    if is_empty req.queue
    then refused queue_required s
    else if is_empty req.payload || same req.payload (codes "null")
    then refused payload_required s
    else if not (valid req.payload)
    then refused payload_not_json s
    else (let (m, db) = ingress req now s.db in
        sent m (append_message env m (record s { db = db })))

unfoldable pub replayed_reply : Result StoreError Delivery × Store → Handled Delivery
replayed_reply (ok d, s) = record { reply = ok d; store = s; announce = 1 }
replayed_reply (err e, s) = record { reply = err (of_store e); store = s; announce = 0 }

-- deliveryReplay; an absent id is `none`.
unfoldable pub delivery_replay : Env → Option ℕ → Store → Handled Delivery
unfolding refused replayed_reply
delivery_replay env none s = refused id_required s
delivery_replay env (some id) s = replayed_reply (replay_delivery env id s)

unfoldable pub to_api {ℓ} : {A : Type ℓ} → Result StoreError A → Result ApiError A
to_api (ok a) = ok a
to_api (err e) = err (of_store e)

-- deliveryShow and messageShow.
unfoldable pub delivery_show : Option ℕ → Store → Result ApiError Delivery
unfolding to_api
delivery_show none s = err (invalid_request id_required)
delivery_show (some id) s = to_api (get_delivery id s.db)

unfoldable pub message_show : Option ℕ → Store → Result ApiError Message
unfolding to_api
message_show none s = err (invalid_request id_required)
message_show (some id) s = to_api (get_message id s.db)

-- deliveryList and messageList: a negative limit is refused.
unfoldable pub delivery_list : DeliveryListOptions → Store → Result ApiError (List Delivery)
delivery_list o s = elim o.limit [
  | negsuc n ↦ err (invalid_request negative_limit)
  | pos n ↦ ok (list_deliveries o s.db)
]

unfoldable pub message_list : ListOptions → Store → Result ApiError (List Message)
message_list o s = elim o.limit [
  | negsuc n ↦ err (invalid_request negative_limit)
  | pos n ↦ ok (list_messages o s.db)
]

-- actionShow.
unfoldable pub action_show : Text → ℤ → Store → Result ApiError ActionRow
unfolding to_api
action_show name (negsuc n) s =
    if is_empty name
    then err (invalid_request name_required)
    else err (invalid_request negative_version)
action_show name (pos version) s =
    if is_empty name
    then err (invalid_request name_required)
    else to_api (get_action name version s.db)

-- setActionEnabled, up to the call of CancelAction, which it makes when it has disabled.
unfoldable pub enable_action : Env → Text → Bool → Store → Result ApiError ActionRow × Store
unfolding to_api
enable_action env name enabled s =
    if is_empty name
    then (err (invalid_request name_required), s)
    else (let (r, s') = set_action_enabled env name enabled s in (to_api r, s'))
