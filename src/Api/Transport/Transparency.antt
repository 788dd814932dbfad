-- ===== src/Api/Transport/Transparency.antt =====
-- `post` of internal/api/client.go beside `handle` of server.go.

use sonata.Prelude.{
  ◌≤◌, ◌≡◌, ◌≢◌, refl, true, false, ◌||◌, some, [], Text, length, is_empty-false, ltb, Result, ok,
  err, arith,
}
use sonata.Store.Types.{
  not_found, not_dead, unexpected_state, constraint, bad_definition, write_failed,
}
use sonata.Api.{ApiError, invalid_request, invalid_action, unencodable, of_store, error_status}
use sonata.Api.Transport.{
  Wire, Envelope, max_body, write_error, encoded, handler_reply, decoded_reply, handle, answered,
  ClientError, reported, reported_error, decoded_response, received, sent_request, post,
}

-- No error has the status of a success.
error_status-range :
    (e : ApiError) → (ltb (error_status e).0 200 || ltb 299 (error_status e).0) ≡ true
unfolding error_status
error_status-range (invalid_request why) = refl
error_status-range invalid_action = refl
error_status-range unencodable = refl
error_status-range (of_store not_found) = refl
error_status-range (of_store (not_dead s)) = refl
error_status-range (of_store unexpected_state) = refl
error_status-range (of_store constraint) = refl
error_status-range (of_store (bad_definition name)) = refl
error_status-range (of_store write_failed) = refl

-- What the client makes of a handler's result.
abbrev pub as_seen {ℓ} : Envelope → {A : Type ℓ} → Result ApiError A → Result ClientError A
as_seen envelope (ok a) = ok a
as_seen envelope (err e) = err (reported (error_status e).1 (envelope.describe e))

module _ {Req Resp : Type 0} (wire : Wire Req Resp) (envelope : Envelope)
    (error_read : (code message : Text)
      → envelope.decode_error (envelope.encode_error code message) ≡ some (code, message))
    (described : (e : ApiError) → envelope.describe e ≢ []) where
  received-err :
      (e : ApiError)
      → received wire envelope (answered (handler_reply wire envelope (err e)))
        ≡ err (reported (error_status e).1 (envelope.describe e))
  unfolding received handler_reply write_error reported_error
  received-err e =
      rw
        (
          error_status-range e,
          error_read (error_status e).1 (envelope.describe e),
          (is_empty-false (envelope.describe e)).1 (described e),
        )
        refl

  received-ok :
      (r : Resp) (text : Text)
      → wire.encode_response r ≡ some text
      → wire.decode_response text ≡ some r
      → received wire envelope (answered (handler_reply wire envelope (ok r))) ≡ ok r
  unfolding received handler_reply encoded decoded_response
  received-ok r text e d = rw (e, d) refl

  received-reply :
      (o : Result ApiError Resp)
      → ((r : Resp)
          → o ≡ ok r
          → (text : Text) × (wire.encode_response r ≡ some text)
            × (wire.decode_response text ≡ some r))
      → received wire envelope (answered (handler_reply wire envelope o)) ≡ as_seen envelope o
  received-reply (ok r) h = let (text, e, d) = h r refl in received-ok r text e d
  received-reply (err e) h = received-err e

  handle-reply :
      (fn : Req → Result ApiError Resp) (req : Req) (body : Text)
      → wire.decode_request body ≡ some req
      → body ≢ []
      → length body ≤ max_body
      → handle wire envelope fn body ≡ handler_reply wire envelope (fn req)
  unfolding handle decoded_reply
  handle-reply fn req body d n l =
      let small : ltb max_body (length body) ≡ false = ground arith in
      rw (small, (is_empty-false body).1 n, d) refl

  -- Where the JSON of the request, of the response and of an error is read back as it was, the
  -- request is not empty nor above the limit, and every error says something: a client that posts a
  -- request to the server gets the handler's response, or its error's machine code and message.
  pub post-handle :
      (fn : Req → Result ApiError Resp) (req : Req) (body : Text)
      → wire.encode_request req ≡ some body
      → wire.decode_request body ≡ some req
      → body ≢ []
      → length body ≤ max_body
      → ((r : Resp)
          → fn req ≡ ok r
          → (text : Text) × (wire.encode_response r ≡ some text)
            × (wire.decode_response text ≡ some r))
      → post wire envelope (λ sent. answered (handle wire envelope fn sent)) req
        ≡ as_seen envelope (fn req)
  unfolding post sent_request
  post-handle fn req body e d n l r =
      rw (e, handle-reply fn req body d n l) (received-reply (fn req) r)
