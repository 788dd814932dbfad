-- ===== src/Api/Client.antt =====
-- internal/api/client.go: the methods of the client, each a post to its endpoint, and Health.
use sonata.Prelude.{Bool, true, false, Option, List, Text, codes, Result, err, ◌==◌, if◌then◌else◌}
use sonata.Prelude.Int.{ℤ}
use sonata.Store.Types.{Message, Delivery, ActionRow}
use sonata.Store.Queries.{QueueInfo, ListOptions, DeliveryListOptions}
use sonata.Api.{SendMessageRequest}
use sonata.Api.Actions.{ApplyActionResponse, ActionSummary}
use sonata.Api.Transport.{
  Wire, Envelope, Network, unreachable, answered, ClientError, no_daemon, connection_failed,
  reported_error, is_no_daemon, decoded_response, post,
}

-- The methods of the client that commands call.
pub record Client : Type 0 where
  pub send_message : SendMessageRequest → Result ClientError Message
  pub list_messages : ListOptions → Result ClientError (List Message)
  pub show_message : Text → Result ClientError Message
  pub list_queues : Result ClientError (List QueueInfo)
  pub apply_action : Text → Result ClientError ApplyActionResponse
  pub list_actions : Result ClientError (List ActionSummary)
  pub show_action : Text → ℤ → Result ClientError ActionRow
  pub set_action_enabled : Text → Bool → Result ClientError ActionRow
  pub list_deliveries : DeliveryListOptions → Result ClientError (List Delivery)
  pub show_delivery : Text → Result ClientError Delivery
  pub replay_delivery : Text → Result ClientError Delivery

-- The endpoints.
pub data Method : Type 0 where
  message_send message_list message_show queue_list : Method
  action_apply action_list action_show action_enable action_disable : Method
  delivery_list delivery_show delivery_replay : Method

unfoldable pub endpoint : Method → Text
endpoint message_send = codes "message.send"
endpoint message_list = codes "message.list"
endpoint message_show = codes "message.show"
endpoint queue_list = codes "queue.list"
endpoint action_apply = codes "action.apply"
endpoint action_list = codes "action.list"
endpoint action_show = codes "action.show"
endpoint action_enable = codes "action.enable"
endpoint action_disable = codes "action.disable"
endpoint delivery_list = codes "delivery.list"
endpoint delivery_show = codes "delivery.show"
endpoint delivery_replay = codes "delivery.replay"

-- What an endpoint takes, and what it returns.
abbrev pub Request : Method → Type 0
Request message_send = SendMessageRequest
Request message_list = ListOptions
Request message_show = Text
Request queue_list = Unit {0}
Request action_apply = Text
Request action_list = Unit {0}
Request action_show = Text × ℤ
Request action_enable = Text
Request action_disable = Text
Request delivery_list = DeliveryListOptions
Request delivery_show = Text
Request delivery_replay = Text

abbrev pub Reply : Method → Type 0
Reply message_send = Message
Reply message_list = List Message
Reply message_show = Message
Reply queue_list = List QueueInfo
Reply action_apply = ApplyActionResponse
Reply action_list = List ActionSummary
Reply action_show = ActionRow
Reply action_enable = ActionRow
Reply action_disable = ActionRow
Reply delivery_list = List Delivery
Reply delivery_show = Delivery
Reply delivery_replay = Delivery

-- The JSON of each endpoint.
abbrev pub Wires : Type 0
Wires = (m : Method) → Wire (Request m) (Reply m)

-- A call of an endpoint: `socket` is what the network answers to a body posted to a path.
unfoldable pub call :
    Wires
    → Envelope
    → (Text → Text → Network)
    → (m : Method) → Request m
    → Result ClientError (Reply m)
unfolding post endpoint
call wires envelope socket m req = post (wires m) envelope (socket (endpoint m)) req

unfoldable pub set_enabled :
    Wires → Envelope → (Text → Text → Network) → Text → Bool → Result ClientError ActionRow
unfolding call
set_enabled wires envelope socket name true = call wires envelope socket action_enable name
set_enabled wires envelope socket name false = call wires envelope socket action_disable name

-- The client on a socket.
unfoldable pub client_on : Wires → Envelope → (Text → Text → Network) → Client
unfolding call set_enabled
client_on wires envelope socket = record {
  send_message = call wires envelope socket message_send;
  list_messages = call wires envelope socket message_list;
  show_message = call wires envelope socket message_show;
  list_queues = call wires envelope socket queue_list tt;
  apply_action = call wires envelope socket action_apply;
  list_actions = call wires envelope socket action_list tt;
  show_action = λ name version. call wires envelope socket action_show (name, version);
  set_action_enabled = set_enabled wires envelope socket;
  list_deliveries = call wires envelope socket delivery_list;
  show_delivery = call wires envelope socket delivery_show;
  replay_delivery = call wires envelope socket delivery_replay;
}

-- HealthResponse: the process that answers, and its version.
pub record Health : Type 0 where
  pub pid : ℤ
  pub version : Text

-- Health: an answer other than 200 is an error, whatever it holds.
unfoldable pub health :
    (Text → Option Health) → (Text → Option (Text × Text)) → Network → Result ClientError Health
unfolding is_no_daemon reported_error decoded_response
health decode decode_error (unreachable e) =
    if is_no_daemon e then err no_daemon else err connection_failed
health decode decode_error (answered r) =
    if r.status == 200
    then decoded_response (decode r.body)
    else err (reported_error r.status (decode_error r.body))
