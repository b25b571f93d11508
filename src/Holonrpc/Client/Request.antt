-- ===== src/Holonrpc/Client/Request.antt =====
-- What the server sends to a client: `handleRequest`, `handleResponse`, `sendResult`, `sendError`
-- and one round of `readLoop`, of pkg/holonrpc/client.go. A frame is what is handed to the
-- WebSocket library; the client drops the errors of these writes.
use go_holons.Common.{
  ℕ, Option, none, some, List, [], ◌∷◌, Bool, true, not, ◌&&◌, ◌||◌, is_some, if◌then◌else◌,
}
use go_holons.Common.Text.{Text, text, text_eq, is_empty, trim_space, has_prefix}
use go_holons.Common.Map.{lookup}
use go_holons.Holonrpc.Value.{null, Object}
use go_holons.Holonrpc.Message.{
  Codec, RpcMessage, ResponseError, json_rpc_version, has_id, id_key, decode_params,
  decode_string_id, classify_decode_error, marshal_message, marshal_object, error_message,
  result_message,
}
use go_holons.Holonrpc.Pending.{deliver}
use go_holons.Holonrpc.Routing.{invalid_request, invalid_params}
use go_holons.Holonrpc.Server.State.{Frame, Reply, returns, fails, Handler}
use go_holons.Holonrpc.Server.Send.{internal_error}
use go_holons.Holonrpc.Server.Request.{
  check_version, method_not_found, handler_error, is_parse_error,
}
use go_holons.Holonrpc.Client.Connection.{Client}

-- `write`, with the error that the callers drop
abbrev pub frame : ℕ → RpcMessage → Option Text → List Frame
frame ws m none = []
frame ws m (some payload) = record { to = ws; message = m; payload = payload } ∷ []

-- `err != nil || !strings.HasPrefix(sid, "s")`
abbrev pub is_foreign : Option Text → Bool
is_foreign none = true
is_foreign (some sid) = not (has_prefix sid (text "s"))

module _ (c : Codec) where
  -- `sendError`
  unfoldable pub send_error : ℕ → Text → ResponseError → List Frame
  send_error ws id e = frame ws (error_message id e) (marshal_message c (error_message id e))

  -- `sendResult` after `marshalObject`
  unfoldable pub send_raw : ℕ → Text → Option Text → List Frame
  send_raw ws id none = send_error ws id internal_error
  send_raw ws id (some raw) = elim (marshal_message c (result_message id raw)) [
    | none ↦ send_error ws id internal_error
    | some payload ↦ frame ws (result_message id raw) (some payload)
  ]

  -- `sendResult`
  unfoldable pub send_result : ℕ → Text → Option Object → List Frame
  unfolding send_raw
  send_result ws id result = send_raw ws id (marshal_object c result)

  -- `if hasID(reqID) { c.sendError(…) }` and `if hasID(reqID) { c.sendResult(…) }`
  unfoldable pub reply_error : ℕ → Text → ResponseError → List Frame
  reply_error ws id e = if has_id id then send_error ws id e else []

  unfoldable pub reply_result : ℕ → Text → Option Object → List Frame
  reply_result ws id out = if has_id id then send_result ws id out else []

  -- the end of `handleRequest`, given what the handler returned
  unfoldable pub answer_handler : ℕ → Text → Reply → List Frame
  answer_handler ws id (returns out) = reply_result ws id out
  answer_handler ws id (fails e) = reply_error ws id (handler_error e)

  unfoldable pub run_handler : ℕ → Text → Text → Object → Option Handler → List Frame
  unfolding answer_handler
  run_handler ws id method params none = reply_error ws id (method_not_found c method)
  run_handler ws id method params (some handler) = answer_handler ws id (handler params)

  unfoldable pub handle_params : Client → ℕ → Text → Text → Option Object → List Frame
  unfolding run_handler
  handle_params s ws id method none =
      reply_error ws id (invalid_params (text "params must be an object"))
  handle_params s ws id method (some params) =
      run_handler ws id method params (lookup method s.handlers)

  -- `handleRequest`
  unfoldable pub handle_request : Client → ℕ → RpcMessage → List Frame
  unfolding handle_params
  handle_request s ws m =
      let method = trim_space m.method in
      if not (text_eq m.jsonrpc json_rpc_version)
      then reply_error ws m.id (invalid_request (text "invalid request"))
      else if is_empty method
      then reply_error ws m.id (invalid_request (text "invalid request"))
      else if text_eq method (text "rpc.heartbeat")
      then reply_result ws m.id (some [])
      else if has_id m.id && is_foreign (decode_string_id c m.id)
      then send_error ws m.id (invalid_request (text "server request id must start with 's'"))
      else handle_params s ws m.id method (decode_params c m.params)

  abbrev pub answered : Client → RpcMessage → Option Text → Client
  answered s m none = s
  answered s m (some key) = record s { pending = deliver key (check_version m) s.pending }

  -- `handleResponse`
  unfoldable pub handle_response : RpcMessage → Client → Client
  handle_response m s = answered s m (id_key m.id)

  -- one text frame in `readLoop`; requests are handled in goroutines
  unfoldable pub receive_message : ℕ → Text → Option RpcMessage → Client → Client × List Frame
  receive_message ws payload none s =
      let code = classify_decode_error c payload in
      let message = if is_parse_error code then text "parse error" else text "invalid request" in
      (s, send_error ws (text "null") (record { code = code; message = message; detail = null }))
  receive_message ws payload (some m) s =
      if not (is_empty m.method)
      then (s, handle_request s ws m)
      else if not (is_empty m.result) || is_some m.error
      then (handle_response m s, [])
      else (s, reply_error ws m.id (invalid_request (text "invalid request")))

  unfoldable pub receive_frame : ℕ → Text → Client → Client × List Frame
  unfolding receive_message
  receive_frame ws payload s = receive_message ws payload (c.decode_message payload) s
