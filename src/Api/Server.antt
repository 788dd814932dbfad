-- ===== src/Api/Server.antt =====
-- internal/api/server.go: the routes of NewServer, beside the client that calls them. Paths that have
-- no route are answered by net/http, and are a parameter.

use sonata.Prelude.{
  ◌≡◌, ◌≢◌, refl, ap, ◌∙◌, Option, none, some, List, [], ◌∷◌, Text, codes, same, if◌then◌else◌,
  length, ◌≤◌, Result, ok,
}
use sonata.Api.{ApiError}
use sonata.Api.Transport.{Envelope, max_body, Network, answered, Response, handle, post}
use sonata.Api.Transport.Transparency.{as_seen, post-handle}
use sonata.Api.Client.{
  Method, message_send, message_list, message_show, queue_list, action_apply, action_list,
  action_show, action_enable, action_disable, delivery_list, delivery_show, delivery_replay,
  endpoint, Request, Reply, Wires, call,
}

-- A handler is named as the method of the client whose types it has. NewServer registers each under
-- a path of its own: `handle(s, path, handler)`.
abbrev pub routes : List (Text × Method)
routes =
    (codes "message.send", message_send)
    ∷ (codes "message.list", message_list)
    ∷ (codes "message.show", message_show)
    ∷ (codes "queue.list", queue_list)
    ∷ (codes "action.apply", action_apply)
    ∷ (codes "action.list", action_list)
    ∷ (codes "action.show", action_show)
    ∷ (codes "action.enable", action_enable)
    ∷ (codes "action.disable", action_disable)
    ∷ (codes "delivery.list", delivery_list)
    ∷ (codes "delivery.show", delivery_show)
    ∷ (codes "delivery.replay", delivery_replay)
    ∷ []

-- The mux: what is registered under the path.
unfoldable pub find_route : List (Text × Method) → Text → Option Method
find_route [] path = none
find_route ((registered, m) ∷ rest) path =
    let later = find_route rest path in if same registered path then some m else later

unfoldable pub route : Text → Option Method
unfolding find_route
route path = find_route routes path

-- The handlers of the server, on its state at the time of the call.
abbrev pub Handlers : Type 0
Handlers = (m : Method) → Request m → Result ApiError (Reply m)

unfoldable pub routed :
    Wires → Envelope → Handlers → (Text → Response) → Option Method → Text → Network
unfolding handle
routed wires envelope handlers unrouted none body = answered (unrouted body)
routed wires envelope handlers unrouted (some m) body =
    answered (handle (wires m) envelope (handlers m) body)

-- The server behind the socket.
unfoldable pub serve : Wires → Envelope → Handlers → (Text → Response) → Text → Text → Network
unfolding route routed
serve wires envelope handlers unrouted path body =
    routed wires envelope handlers unrouted (route path) body

-- The path that the client posts to is registered with the handler of the method.
route-endpoint : (m : Method) → route (endpoint m) ≡ some m
unfolding route find_route endpoint same
route-endpoint message_send = refl
route-endpoint message_list = refl
route-endpoint message_show = refl
route-endpoint queue_list = refl
route-endpoint action_apply = refl
route-endpoint action_list = refl
route-endpoint action_show = refl
route-endpoint action_enable = refl
route-endpoint action_disable = refl
route-endpoint delivery_list = refl
route-endpoint delivery_show = refl
route-endpoint delivery_replay = refl

module _ (wires : Wires) (envelope : Envelope) (handlers : Handlers) (unrouted : Text → Response)
    (error_read : (code message : Text)
      → envelope.decode_error (envelope.encode_error code message) ≡ some (code, message))
    (described : (e : ApiError) → envelope.describe e ≢ []) where
  serve-endpoint :
      (m : Method)
      → serve wires envelope handlers unrouted (endpoint m)
        ≡ (λ body. answered (handle (wires m) envelope (handlers m) body))
  unfolding serve
  serve-endpoint m = λ i body. routed wires envelope handlers unrouted (route-endpoint m i) body

  -- Where the JSON of the request, of the reply and of an error is read back as it was, the request
  -- is not empty nor above the limit, and every error says something: each method of the client
  -- posts to a path that the server has registered with the handler of that method, and gets what
  -- the handler returns, or its error's machine code and message.
  pub call-serve :
      (m : Method) (req : Request m) (body : Text)
      → (wires m).encode_request req ≡ some body
      → (wires m).decode_request body ≡ some req
      → body ≢ []
      → length body ≤ max_body
      → ((r : Reply m)
          → handlers m req ≡ ok r
          → (text : Text) × ((wires m).encode_response r ≡ some text)
            × ((wires m).decode_response text ≡ some r))
      → call wires envelope (serve wires envelope handlers unrouted) m req
        ≡ as_seen envelope (handlers m req)
  unfolding call
  call-serve m req body e d n l r =
      ap (λ (socket : Text → Network). post (wires m) envelope socket req) (serve-endpoint m)
      ∙ post-handle (wires m) envelope error_read described (handlers m) req body e d n l r
