-- ===== src/Api/Transport.antt =====
-- internal/api: `handle` of server.go and writeError of errors.go on one side of the socket, `post`
-- of client.go on the other. A body is the list of its bytes. encoding/json and what the network
-- does are parameters.
pub mod Transparency
use sonata.Prelude.{
  ℕ, Bool, true, false, ◌||◌, Option, none, some, List, [], ◌∷◌, ◌++◌, Text, codes, length,
  is_empty, ltb, Result, ok, err, if◌then◌else◌,
}
use sonata.Api.{ApiError, error_status}

pub record Response : Type 0 where
  pub status : ℕ
  pub body : Text

-- The JSON of an endpoint's request and response; `no_request` is the zero value.
pub record Wire (Req Resp : Type 0) : Type 0 where
  pub encode_request : Req → Option Text
  pub decode_request : Text → Option Req
  pub no_request : Req
  pub encode_response : Resp → Option Text
  pub decode_response : Text → Option Resp

-- The JSON of ErrorResponse, by its code and message; and what the errors of decoding and of a
-- handler say.
pub record Envelope : Type 0 where
  pub encode_error : Text → Text → Text
  pub decode_error : Text → Option (Text × Text)
  pub undecodable : Text → Text
  pub describe : ApiError → Text

-- 16 MiB.
abbrev pub max_body : ℕ
max_body = 16777216

unfoldable pub write_error : Envelope → ℕ → Text → Text → Response
write_error envelope status code message = record {
  status = status;
  body = envelope.encode_error code message;
}

-- A response that cannot be encoded is logged, after its status has been sent.
unfoldable pub encoded : Option Text → Response
encoded none = record { status = 200; body = [] }
encoded (some text) = record { status = 200; body = text }

module _ {Req Resp : Type 0} (wire : Wire Req Resp) (envelope : Envelope) where
  unfoldable pub handler_reply : Result ApiError Resp → Response
  unfolding write_error encoded
  handler_reply (ok r) = encoded (wire.encode_response r)
  handler_reply (err e) =
      write_error envelope (error_status e).0 (error_status e).1 (envelope.describe e)

  unfoldable pub decoded_reply : (Req → Result ApiError Resp) → Text → Option Req → Response
  unfolding handler_reply
  decoded_reply fn body none =
      write_error envelope 400 (codes "invalid_request")
        (codes "decode request: " ++ envelope.undecodable body)
  decoded_reply fn body (some req) = handler_reply (fn req)

  -- handle.
  unfoldable pub handle : (Req → Result ApiError Resp) → Text → Response
  unfolding decoded_reply
  handle fn body =
      if ltb max_body (length body)
      then write_error envelope 400 (codes "invalid_request")
          (codes "read body: http: request body too large")
      else if is_empty body
      then handler_reply (fn wire.no_request)
      else decoded_reply fn body (wire.decode_request body)

-- An error of the connection.
pub data DialError : Type 0 where
  connection_refused no_entry not_exist other_error : DialError

unfoldable pub is_no_daemon : DialError → Bool
is_no_daemon other_error = false
is_no_daemon e = true

pub data Network : Type 0 where
  unreachable : DialError → Network
  answered : Response → Network

pub data ClientError : Type 0 where
  unencodable_request no_daemon connection_failed undecodable_response : ClientError
  unexpected_status : ℕ → ClientError
  -- Error, by its code and message.
  reported : Text → Text → ClientError

unfoldable pub reported_error : ℕ → Option (Text × Text) → ClientError
reported_error status none = unexpected_status status
reported_error status (some (code, message)) =
    if is_empty message then unexpected_status status else reported code message

unfoldable pub decoded_response {ℓ} : {A : Type ℓ} → Option A → Result ClientError A
decoded_response none = err undecodable_response
decoded_response (some a) = ok a

module _ {Req Resp : Type 0} (wire : Wire Req Resp) (envelope : Envelope) where
  unfoldable pub received : Network → Result ClientError Resp
  unfolding reported_error decoded_response is_no_daemon
  received (unreachable e) = if is_no_daemon e then err no_daemon else err connection_failed
  received (answered r) =
      if ltb r.status 200 || ltb 299 r.status
      then err (reported_error r.status (envelope.decode_error r.body))
      else decoded_response (wire.decode_response r.body)

  unfoldable pub sent_request : (Text → Network) → Option Text → Result ClientError Resp
  unfolding received
  sent_request network none = err unencodable_request
  sent_request network (some body) = received (network body)

  -- post.
  unfoldable pub post : (Text → Network) → Req → Result ClientError Resp
  unfolding sent_request
  post network req = sent_request network (wire.encode_request req)
