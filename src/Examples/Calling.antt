-- ===== src/Examples/Calling.antt =====
-- A call from the client through the socket to the server.
use sonata.Prelude.{
  ℕ, zero, suc, ◌≡◌, refl, ap, Option, none, some, [], ◌∷◌, Text, codes, ok, err, arith,
}
use sonata.Prelude.Int.{pos}
use sonata.Store.Queries.{ListOptions, DeliveryListOptions}
use sonata.Api.{invalid_action, SendMessageRequest}
use sonata.Api.Transport.{Wire, Envelope, Response}
use sonata.Api.Client.{
  message_send, message_list, message_show, queue_list, action_apply, action_list, action_show,
  action_enable, action_disable, delivery_list, delivery_show, delivery_replay, Wires, call,
}
use sonata.Api.Server.{Handlers, serve, call-serve}

-- A code and a message in one text: each character of the code after a mark.
abbrev marked : Text → Text → Text
marked [] message = 0 ∷ message
marked (c ∷ code) message = 1 ∷ c ∷ marked code message

abbrev with_first : ℕ → Option (Text × Text) → Option (Text × Text)
with_first c none = none
with_first c (some (code, message)) = some (c ∷ code, message)

abbrev unmarked : Text → Option (Text × Text)
unmarked [] = none
unmarked (zero ∷ message) = some ([], message)
unmarked (suc k ∷ []) = none
unmarked (suc k ∷ c ∷ text) = with_first c (unmarked text)

unmarked-marked : (code message : Text) → unmarked (marked code message) ≡ some (code, message)
unmarked-marked [] message = refl
unmarked-marked (c ∷ code) message = ap (with_first c) (unmarked-marked code message)

abbrev envelope : Envelope
envelope = record {
  encode_error = marked;
  decode_error = unmarked;
  undecodable = λ body. [];
  describe = λ e. codes "failed";
}

-- The wire of an endpoint that is not called here.
abbrev silent : {Req Resp : Type 0} → Req → Wire Req Resp
silent x = record {
  encode_request = λ req. none;
  decode_request = λ body. none;
  no_request = x;
  encode_response = λ r. none;
  decode_response = λ body. none;
}

abbrev all_messages : ListOptions
all_messages = record { queue = []; trace_id = none; limit = pos 0; before_id = none }

abbrev all_rows : DeliveryListOptions
all_rows = record { action = []; state = none; message_id = none; limit = pos 0; before_id = none }

abbrev no_message : SendMessageRequest
no_message = record { queue = []; payload = []; headers = [] }

-- The list of queues is empty, and its JSON too.
abbrev wires : Wires
wires message_send = silent no_message
wires message_list = silent all_messages
wires message_show = silent []
wires queue_list = record {
  encode_request = λ req. some (codes "{}");
  decode_request = λ body. some tt;
  no_request = tt;
  encode_response = λ r. some (codes "{}");
  decode_response = λ body. some [];
}
wires action_apply = silent []
wires action_list = silent tt
wires action_show = silent ([], pos 0)
wires action_enable = silent []
wires action_disable = silent []
wires delivery_list = silent all_rows
wires delivery_show = silent []
wires delivery_replay = silent []

abbrev handlers : Handlers
handlers queue_list req = ok []
handlers _ req = err invalid_action

abbrev unrouted : Text → Response
unrouted body = record { status = 404; body = [] }

call-serve_example :
    call wires envelope (serve wires envelope handlers unrouted) queue_list tt ≡ ok []
call-serve_example =
    call-serve wires envelope handlers unrouted unmarked-marked (λ e k. cc k) queue_list tt
      (codes "{}") refl refl (λ k. cc k) (omega arith) (λ r e. (codes "{}", refl, cc e))
