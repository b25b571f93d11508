-- ===== src/Holonrpc/RoundTrip/Handled.antt =====
-- A request that `handlePeerRequest` of pkg/holonrpc/server.go hands to a handler of the server, and
-- the response that `sendPeerResultAny` writes for what the handler returns.
use go_holons.Common.{ℕ, ◌≡◌, ◌≢◌, refl, ap, ◌∙◌, none, some, [], ◌∷◌, true, false, inl, inr}
use go_holons.Common.Text.{Text, text, text_eq, text_eq_refl, trim_space}
use go_holons.Common.Map.{lookup}
use go_holons.Holonrpc.Value.{Object}
use go_holons.Holonrpc.Message.{
  Codec, IsLawful, json_rpc_version, has_id, decode_params, request_message, result_message,
  marshal_object, marshal_message,
}
use go_holons.Holonrpc.Routing.{Route, ok, parse_route_hints}
use go_holons.Holonrpc.Server.State.{World, Server, returns, Handler, ◌>>=◌}
use go_holons.Holonrpc.Server.Send.{
  write_peer, send_peer_raw, send_peer_result_any, marshal_any_result, reply_result,
}
use go_holons.Holonrpc.Server.Route.{route_peer_request}
use go_holons.Holonrpc.Server.Request.{
  call_peer_handler, answer_handler, run_handler, route_request, handle_params, handle_peer_request,
}
use go_holons.Holonrpc.RoundTrip.{ComesBack}
use go_holons.Holonrpc.Client.Calls.{is_empty-false}

-- A request whose method and params the server accepts, and does not answer by itself.
pub record IsRequest (c : Codec) (method params : Text) : Type 0 where
  pub arguments : Object
  pub trimmed : trim_space method ≡ method
  pub named : method ≢ []
  pub not_heartbeat : text_eq method (text "rpc.heartbeat") ≡ false
  pub not_peers : text_eq method (text "rpc.peers") ≡ false
  pub readable : decode_params c params ≡ some arguments

-- A request that the server handles itself: its method has a handler there and neither fans out nor
-- names a peer, and nothing cuts that handler off.
pub record IsHandled (c : Codec) (w : World) (method params : Text) (s : Server) (out : Object)
    : Type 0 where
  pub request : IsRequest c method params
  pub route : Route
  pub handler : Handler
  pub parsed : parse_route_hints c method request.arguments ≡ ok route
  pub not_fanned : route.fan_out ≡ false
  pub no_peer : route.hints.target_peer_id ≡ []
  pub found : lookup route.method s.handlers ≡ some handler
  pub undisturbed : (w.interrupt route.params s).0 ≡ none
  pub gives : handler route.params ≡ returns (some out)

-- What the server sends for the result of a handler.
pub result_sent :
    (c : Codec) (w : World) (peer : ℕ) (id : Text) (out : Object) (s : Server)
    → IsLawful c
    → has_id id ≡ true
    → c.valid id ≡ true
    → (b : ComesBack c out)
    → (payload : Text) × ((answer_handler c w peer id (returns (some out)) s).2
        ≡ record { to = peer; message = result_message id b.raw; payload = payload } ∷ [])
unfolding answer_handler reply_result send_peer_result_any marshal_any_result send_peer_raw
    marshal_message marshal_object write_peer ◌>>=◌
result_sent c w peer id out s law has valid b =
    let (payload, done) =
      law.encodes_message (result_message id b.raw) (inr valid) (inl refl) (inr b.valid) tt in
    (payload, rw (has, send_peer_result_any, b.written, send_peer_raw, done) refl)

pub to_params :
    (c : Codec) (w : World) (peer : ℕ) (id method params : Text) (s : Server)
    (h : IsRequest c method params)
    → handle_peer_request c w peer (request_message id method params) s
      ≡ handle_params c w peer (s.heap peer).id id method (some h.arguments) s
unfolding handle_peer_request ◌>>=◌
to_params c w peer id method params s h =
    rw
      (
        text_eq_refl json_rpc_version,
        h.trimmed,
        is_empty-false method h.named,
        h.not_heartbeat,
        h.not_peers,
        h.readable,
      )
      refl

to_handler :
    (c : Codec) (w : World) (peer : ℕ) (caller_id id : Text) (r : Route) (s : Server)
    → r.fan_out ≡ false
    → r.hints.target_peer_id ≡ []
    → route_request c w peer caller_id id (ok r) s
      ≡ run_handler c w peer id r.method r.params (lookup r.method s.handlers) s
unfolding route_request route_peer_request ◌>>=◌
to_handler c w peer caller_id id r s not_fanned no_peer = rw (not_fanned, no_peer) refl

to_answer :
    (c : Codec) (w : World) (peer : ℕ) (id method : Text) (params : Object) (handler : Handler)
    (s : Server)
    → (w.interrupt params s).0 ≡ none
    → run_handler c w peer id method params (some handler) s
      ≡ answer_handler c w peer id (handler params) (w.interrupt params s).1
unfolding run_handler call_peer_handler ◌>>=◌
to_answer c w peer id method params handler s undisturbed = rw undisturbed refl

pub handled :
    (c : Codec) (w : World) (peer : ℕ) (id method params : Text) (s : Server) (out : Object)
    (h : IsHandled c w method params s out)
    → handle_peer_request c w peer (request_message id method params) s
      ≡ answer_handler c w peer id (returns (some out)) (w.interrupt h.route.params s).1
unfolding handle_params
handled c w peer id method params s out h =
    let r = h.route in
    to_params c w peer id method params s h.request
    ∙ ap (λ x. route_request c w peer (s.heap peer).id id x s) h.parsed
    ∙ to_handler c w peer (s.heap peer).id id r s h.not_fanned h.no_peer
    ∙ ap (λ x. run_handler c w peer id r.method r.params x s) h.found
    ∙ to_answer c w peer id r.method r.params h.handler s h.undisturbed
    ∙ ap (λ x. answer_handler c w peer id x (w.interrupt r.params s).1) h.gives
