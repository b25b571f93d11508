-- ===== src/Holonrpc/Server/Request.antt =====
-- The requests and responses that a client sends: `handlePeerRequest`, `callPeerHandler`,
-- `handlePeerResponse` and `failPeerPending`, all of pkg/holonrpc/server.go.
use go_holons.Common.{
  ℕ, Option, none, some, [], ◌++◌, Bool, true, false, not, ◌||◌, ◌==◌, if◌then◌else◌,
}
use go_holons.Common.Text.{Text, text, text_eq, is_empty, trim_space}
use go_holons.Common.Map.{lookup}
use go_holons.Common.Int.{ℤ, pos, negsuc}
use go_holons.Holonrpc.Value.{null, object, end, field, Object}
use go_holons.Holonrpc.Message.{
  Codec, RpcMessage, ResponseError, Error, json_rpc_version, code_method_not_found,
  code_unavailable, id_key, decode_params, as_response, is_canceled, is_deadline_exceeded,
  error_message, error_text,
}
use go_holons.Holonrpc.Pending.{deliver, fail_all}
use go_holons.Holonrpc.Routing.{
  Result, ok, err, Route, invalid_request, invalid_params, parse_route_hints,
}
use go_holons.Holonrpc.Server.State.{
  World, Reply, returns, fails, Handler, M, pure, gets, modify, ◌>>=◌, update_pending,
}
use go_holons.Holonrpc.Server.Send.{internal_error, reply_error, reply_result, any_of_map}
use go_holons.Holonrpc.Server.Route.{peers_result, route_peer_request}

-- `msg.JSONRPC != jsonRPCVersion` of a response: its content is replaced by an error.
abbrev pub invalid_response : ResponseError
invalid_response = invalid_request (text "invalid response")

abbrev pub check_version : RpcMessage → RpcMessage
check_version m =
    if text_eq m.jsonrpc json_rpc_version
    then m
    else record m { result = []; error = some invalid_response }

abbrev pub deliver_keyed : ℕ → RpcMessage → Option Text → M (Unit {0})
deliver_keyed peer m none = pure tt
deliver_keyed peer m (some key) = modify (update_pending peer (deliver key (check_version m)))

-- `handlePeerResponse`
unfoldable pub handle_peer_response : ℕ → RpcMessage → M (Unit {0})
handle_peer_response peer m = deliver_keyed peer m (id_key m.id)

-- the envelope that stands for the end of a connection
abbrev pub closed_message : Codec → Error → RpcMessage
closed_message c e =
    error_message [] (record { code = code_unavailable; message = error_text c e; detail = null })

-- `failPeerPending`
unfoldable pub fail_peer_pending : Codec → ℕ → Error → M (Unit {0})
fail_peer_pending c peer e = modify (update_pending peer (fail_all (closed_message c e)))

-- `code == codeParseError`
abbrev pub is_parse_error : ℤ → Bool
is_parse_error (pos n) = false
is_parse_error (negsuc n) = n == 32699

abbrev pub method_not_found : Codec → Text → ResponseError
method_not_found c method = record {
  code = code_method_not_found;
  message = text "method " ++ c.quote method ++ text " not found";
  detail = null;
}

-- What is sent for the error of a handler.
abbrev pub handler_error : Error → ResponseError
handler_error e = elim (as_response e) [ some r ↦ r | none ↦ internal_error ]

module _ (c : Codec) (w : World) where
  -- `callPeerHandler`: the end of the context, if that comes first, or what the handler returns
  unfoldable pub call_peer_handler : Handler → Object → M Reply
  call_peer_handler handler params s =
      let (ended, s') = w.interrupt params s in
      (elim ended [ none ↦ handler params | some e ↦ fails e ], s', [])

  -- The end of `handlePeerRequest`, given what the handler returned.
  unfoldable pub answer_handler : ℕ → Text → Reply → M (Option Error)
  answer_handler peer req_id (returns out) = reply_result c w peer req_id (any_of_map out)
  answer_handler peer req_id (fails e) =
      if is_canceled e || is_deadline_exceeded e
      then pure none
      else reply_error c w peer req_id (handler_error e)

  unfoldable pub run_handler : ℕ → Text → Text → Object → Option Handler → M (Option Error)
  run_handler peer req_id method params none =
      reply_error c w peer req_id (method_not_found c method)
  run_handler peer req_id method params (some handler) = do
    reply ← call_peer_handler handler params
    answer_handler peer req_id reply

  abbrev pub after_route : ℕ → Text → Text → Object → Bool × Option Error → M (Option Error)
  after_route peer req_id method params (true, failed) = pure none
  after_route peer req_id method params (false, failed) = do
    found ← gets (λ s. lookup method s.handlers)
    run_handler peer req_id method params found

  unfoldable pub route_request : ℕ → Text → Text → Result Route → M (Option Error)
  unfolding run_handler
  route_request peer caller_id req_id (err e) = reply_error c w peer req_id e
  route_request peer caller_id req_id (ok r) = do
    routed ← route_peer_request c w peer caller_id req_id r.method r.params r.hints r.fan_out
    after_route peer req_id r.method r.params routed

  unfoldable pub handle_params : ℕ → Text → Text → Text → Option Object → M (Option Error)
  handle_params peer caller_id req_id method none =
      reply_error c w peer req_id (invalid_params (text "params must be an object"))
  handle_params peer caller_id req_id method (some params) =
      route_request peer caller_id req_id (parse_route_hints c method params)

  -- `handlePeerRequest`; its value, the error of the last write, is dropped by the code.
  unfoldable pub handle_peer_request : ℕ → RpcMessage → M (Option Error)
  handle_peer_request peer m =
      let method = trim_space m.method in
      if not (text_eq m.jsonrpc json_rpc_version)
      then reply_error c w peer m.id (invalid_request (text "invalid request"))
      else if is_empty method
      then reply_error c w peer m.id (invalid_request (text "invalid request"))
      else if text_eq method (text "rpc.heartbeat")
      then reply_result c w peer m.id (object end)
      else if text_eq method (text "rpc.peers")
      then (gets peers_result >>= λ peers.
          reply_result c w peer m.id (object (field (text "peers") peers end)))
      else do
        caller_id ← gets (λ s. (s.heap peer).id)
        handle_params peer caller_id m.id method (decode_params c m.params)
