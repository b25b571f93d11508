-- ===== src/Holonrpc/RoundTrip/Relayed.antt =====
-- A request that names a peer: `routePeerRequest` of pkg/holonrpc/routing.go calls that peer by
-- `Invoke` of server.go and hands its answer to the caller.
use go_holons.Common.Int.{add_int64}
use go_holons.Common.{ℕ, ◌≡◌, ◌≢◌, refl, ap, ◌∙◌, Option, some, List, [], ◌∷◌, true, false}
use mathlib.Core.List.{append-nil}
use go_holons.Common.Text.{Text, text, text_eq, is_empty, trim_space}
use go_holons.Common.Map.{lookup}
use go_holons.Holonrpc.Value.{Object}
use go_holons.Holonrpc.Message.{
  Codec, IsLawful, RpcMessage, Error, has_id, make_id, decode_params, marshal_object,
  request_message, result_message,
}
use go_holons.Holonrpc.Message.Laws.{has_id-make_id, valid-make_id}
use go_holons.Holonrpc.Pending.Laws.{IsValid}
use go_holons.Holonrpc.Routing.{Route, ok, parse_route_hints, route_mode_broadcast_response}
use go_holons.Holonrpc.Server.State.{
  World, Server, Frame, returns, Handler, answered, waiting, ◌>>=◌,
}
use go_holons.Holonrpc.Server.Invoke.{
  server_id, begin_invoke, finish_invoke, invoke, call_peer, wait, take_answer, forget_call,
  reply_of,
}
use go_holons.Holonrpc.Server.Route.{peer_exists, route_to_peer, route_named, route_peer_request}
use go_holons.Holonrpc.Server.Request.{
  answer_handler, route_request, handle_params, handle_peer_request, handle_peer_response,
}
use go_holons.Holonrpc.Client.Connection.{Client}
use go_holons.Holonrpc.Client.Request
use go_holons.Holonrpc.Client.Request.{handle_request}
use go_holons.Holonrpc.Client.Calls.{server_call-handled}
use go_holons.Holonrpc.RoundTrip.{
  ComesBack, answer-frame, call_peer-IsCalling, response_arrives, reply_of-result,
}
use go_holons.Holonrpc.RoundTrip.Handled.{IsRequest, to_params, result_sent}

-- A request that the server hands to the connected peer at `ptr`.
pub record IsRelayed (c : Codec) (method params : Text) (r : Route) (s : Server) (ptr : ℕ)
    : Type 0 where
  pub request : IsRequest c method params
  pub parsed : parse_route_hints c method request.arguments ≡ ok r
  pub not_fanned : r.fan_out ≡ false
  pub has_peer : is_empty r.hints.target_peer_id ≡ false
  pub has_method : is_empty (trim_space r.method) ≡ false
  pub is_connected : lookup r.hints.target_peer_id s.peers ≡ some ptr

pub begin_invoke-call :
    (c : Codec) (w : World) (client_id method : Text) (args : Object) (ptr : ℕ) (s : Server)
    → is_empty (trim_space method) ≡ false
    → lookup client_id s.peers ≡ some ptr
    → begin_invoke c w client_id method (some args) s ≡ call_peer c w method (some args) ptr s
unfolding begin_invoke ◌>>=◌
begin_invoke-call c w client_id method args ptr s named found = rw (named, found) refl

finish_invoke-answered :
    (c : Codec) (w : World) (to ch : ℕ) (key : Text) (m : RpcMessage) (s : Server)
    → (w.await to key ch s).0 ≡ answered m
    → ((finish_invoke c w (waiting to key ch) s).0 ≡ reply_of c w (answered m))
      × ((finish_invoke c w (waiting to key ch) s).2 ≡ [])
unfolding finish_invoke wait take_answer forget_call ◌>>=◌
finish_invoke-answered c w to ch key m s woken = (rw woken refl, rw woken refl)

-- A call that waits and is answered: what it returns and what it has sent.
pub invoke-answered :
    (c : Codec) (w : World) (client_id method : Text) (args : Object) (ptr : ℕ) (s : Server)
    (to ch : ℕ) (key : Text) (m : RpcMessage)
    → begin_invoke c w client_id method (some args) s ≡ call_peer c w method (some args) ptr s
    → (call_peer c w method (some args) ptr s).0 ≡ waiting to key ch
    → (w.await to key ch (call_peer c w method (some args) ptr s).1).0 ≡ answered m
    → ((invoke c w client_id method (some args) s).0 ≡ reply_of c w (answered m))
      × ((invoke c w client_id method (some args) s).2 ≡ (call_peer c w method (some args) ptr s).2)
unfolding invoke ◌>>=◌
invoke-answered c w client_id method args ptr s to ch key m e waits woken =
    let called = call_peer c w method (some args) ptr s in
    let (replied, silent) = finish_invoke-answered c w to ch key m called.1 woken in
    (rw (e, waits) replied, rw (e, waits, silent) (append-nil called.2))

pub route_peer_request-named :
    (c : Codec) (w : World) (caller : ℕ) (caller_id id : Text) (r : Route) (s : Server) (ptr : ℕ)
    → r.fan_out ≡ false
    → is_empty r.hints.target_peer_id ≡ false
    → lookup r.hints.target_peer_id s.peers ≡ some ptr
    → route_peer_request c w caller caller_id id r.method r.params r.hints r.fan_out s
      ≡ route_to_peer c w true caller caller_id id r.method r.params r.hints s
unfolding route_peer_request route_named peer_exists ◌>>=◌
route_peer_request-named c w caller caller_id id r s ptr not_fanned peer found =
    rw (not_fanned, peer, found) refl

route_to_peer-relayed :
    (c : Codec) (w : World) (caller : ℕ) (caller_id id : Text) (r : Route) (s : Server)
    (out : Object) (request reply : Frame)
    → text_eq r.hints.mode route_mode_broadcast_response ≡ false
    → let i = invoke c w r.hints.target_peer_id r.method (some r.params) s in
      let a = answer_handler c w caller id (returns (some out)) i.1 in
      i.0 ≡ returns (some out)
      → i.2 ≡ request ∷ []
      → a.2 ≡ reply ∷ []
      → route_to_peer c w true caller caller_id id r.method r.params r.hints s
        ≡ ((true, a.0), a.1, request ∷ reply ∷ [])
unfolding route_to_peer answer_handler ◌>>=◌
route_to_peer-relayed c w caller caller_id id r s out request reply mode e f g =
    rw (e, mode, f, g) refl

pub after_relay :
    (c : Codec) (w : World) (caller : ℕ) (caller_id id : Text) (r : Route) (s s' : Server)
    (failed : Option Error) (frames : List Frame)
    → route_peer_request c w caller caller_id id r.method r.params r.hints r.fan_out s
      ≡ ((true, failed), s', frames)
    → (route_request c w caller caller_id id (ok r) s).2 ≡ frames
unfolding route_request ◌>>=◌
after_relay c w caller caller_id id r s s' failed frames e = rw e (append-nil frames)

-- A client with a handler for a request that the server makes of it, which gives a result.
pub record IsServed (c : Codec) (method raw : Text) (client : Client) (out : Object) : Type 0 where
  pub arguments : Object
  pub handler : Handler
  pub trimmed : trim_space method ≡ method
  pub named : method ≢ []
  pub not_heartbeat : text_eq method (text "rpc.heartbeat") ≡ false
  pub readable : decode_params c raw ≡ some arguments
  pub found : lookup method client.handlers ≡ some handler
  pub gives : handler arguments ≡ returns (some out)

-- The identifier of the next request that the server makes.
abbrev pub inner_id : Codec → Server → Text
inner_id c s = make_id c (server_id (add_int64 s.next_server_id))

-- What that client sends for the request.
pub served_reply :
    (c : Codec) (client : Client) (ws n : ℕ) (method raw : Text) (out : Object)
    → IsLawful c
    → IsServed c method raw client out
    → (back : ComesBack c out)
    → let id = make_id c (server_id n) in
      (payload : Text) × (handle_request c client ws (request_message id method raw)
        ≡ record { to = ws; message = result_message id back.raw; payload = payload } ∷ [])
served_reply c client ws n method raw out law h back =
    let id = make_id c (server_id n) in
    let (payload, framed) =
      answer-frame c ws id out law (has_id-make_id c law (server_id n))
        (valid-make_id c law (server_id n)) back in
    (
      payload,
      server_call-handled c client ws n method raw h.arguments h.handler law h.trimmed h.named
            h.not_heartbeat h.readable h.found
          ∙ ap (Request.answer_handler c ws id) h.gives
          ∙ framed,
    )

-- From end to end through the server: a request that is not the server's own to answer, does not fan
-- out and names a connected peer, under an identifier that is valid JSON, and that does not ask to
-- broadcast the response, is sent to that peer as one request; that peer, a client with a handler for
-- it, answers with one response, which is in the channel that the call waits on; where it wakes the
-- call, the caller gets one response under its own identifier with the result of that handler, if the
-- encoder reads back what it writes for it; nothing else is sent.
pub relay-Returns :
    (c : Codec) (w : World) (caller : ℕ) (id method params raw : Text) (r : Route) (s : Server)
    (ptr : ℕ) (target : Client) (ws : ℕ) (out : Object) (to ch : ℕ) (key : Text)
    → IsLawful c
    → has_id id ≡ true
    → c.valid id ≡ true
    → (h : IsRelayed c method params r s ptr)
    → text_eq r.hints.mode route_mode_broadcast_response ≡ false
    → marshal_object c (some r.params) ≡ some raw
    → IsServed c r.method raw target out
    → (back : ComesBack c out) → IsValid (s.heap ptr).pending
    → let called = call_peer c w r.method (some r.params) ptr s in
      let request = request_message (inner_id c s) r.method raw in
      let response = result_message (inner_id c s) back.raw in
      called.0 ≡ waiting to key ch
      → (w.await to key ch called.1).0 ≡ answered response
      → (p q z : Text) × (handle_request c target ws request
          ≡ record { to = ws; message = response; payload = z } ∷ [])
        × (((handle_peer_response ptr response called.1).1.heap ptr).pending.buffers ch
            ≡ some response)
        × ((handle_peer_request c w caller (request_message id method params) s).2
            ≡ record { to = ptr; message = request; payload = p }
              ∷ record { to = caller; message = result_message id back.raw; payload = q }
              ∷ [])
unfolding handle_params
relay-Returns c w caller id method params raw r s ptr target ws out to ch key law has valid h
      private encoded served back v waits woken =
    let caller_id = (s.heap caller).id in
    let n = add_int64 s.next_server_id in
    let called = call_peer c w r.method (some r.params) ptr s in
    let i = invoke c w r.hints.target_peer_id r.method (some r.params) s in
    let calling =
      call_peer-IsCalling c w r.method raw (some r.params) ptr s to key ch encoded waits in
    let (replied, sent) =
      invoke-answered c w r.hints.target_peer_id r.method r.params ptr s to ch key
        (result_message (inner_id c s) back.raw)
        (begin_invoke-call c w r.hints.target_peer_id r.method r.params ptr s h.has_method
          h.is_connected)
        waits woken in
    let (z, answers) = served_reply c target ws n r.method raw out law served back in
    let (q, framed) = result_sent c w caller id out i.1 law has valid back in
    let request : Frame = record {
      to = ptr;
      message = request_message (inner_id c s) r.method raw;
      payload = calling.payload;
    } in
    let reply : Frame = record { to = caller; message = result_message id back.raw; payload = q } in
    (
      calling.payload,
      q,
      z,
      answers,
      response_arrives c (server_id n) back.raw ptr ch (s.heap ptr).pending called.1 law v
          calling.channel calling.registered,
      ap (λ x. x.2) (to_params c w caller id method params s h.request)
          ∙ ap (λ x. (route_request c w caller caller_id id x s).2) h.parsed
          ∙ after_relay c w caller caller_id id r s _ _ (request ∷ reply ∷ []) (
              route_peer_request-named c w caller caller_id id r s ptr h.not_fanned h.has_peer
                h.is_connected
              ∙ route_to_peer-relayed c w caller caller_id id r s out request reply private
                  (replied ∙ reply_of-result c w (inner_id c s) out back) (sent ∙ calling.sent)
                  framed),
    )
