-- ===== src/Holonrpc/RoundTrip/RelayedErrors.antt =====
-- The errors of a request that names a peer: what `routePeerRequest` of pkg/holonrpc/routing.go sends
-- to the caller where the peer answers with an error.
use go_holons.Common.{ℕ, ◌≡◌, refl, ap, ◌∙◌, some, [], ◌∷◌, true, inl, inr}
use go_holons.Common.Int.{add_int64}
use go_holons.Common.Text.{Text}
use go_holons.Holonrpc.Message.{
  Codec, IsLawful, HasEncoding, RpcMessage, ResponseError, response, has_id, make_id,
  request_message, error_message, marshal_object, marshal_message, as_response,
}
use go_holons.Holonrpc.Routing.{Route}
use go_holons.Holonrpc.Server.State.{World, Server, Frame, fails, answered, waiting, ◌>>=◌}
use go_holons.Holonrpc.Server.Send.{
  write_peer, send_peer_error, reply_error, reply_rpc_error, to_response_error,
}
use go_holons.Holonrpc.Server.Invoke.{server_id, invoke, call_peer, reply_of}
use go_holons.Holonrpc.Server.Route.{route_to_peer}
use go_holons.Holonrpc.Server.Request.{route_request, handle_params, handle_peer_request}
use go_holons.Holonrpc.RoundTrip.{call_peer-IsCalling}
use go_holons.Holonrpc.RoundTrip.Handled.{to_params}
use go_holons.Holonrpc.RoundTrip.Relayed.{
  IsRelayed, begin_invoke-call, invoke-answered, route_peer_request-named, after_relay,
}

error_sent :
    (c : Codec) (w : World) (peer : ℕ) (id : Text) (e : ResponseError) (s : Server)
    → IsLawful c
    → has_id id ≡ true
    → c.valid id ≡ true
    → HasEncoding c (some e)
    → (payload : Text) × ((reply_error c w peer id e s).2
        ≡ record { to = peer; message = error_message id e; payload = payload } ∷ [])
unfolding reply_error send_peer_error marshal_message write_peer ◌>>=◌
error_sent c w peer id e s law has valid encodable =
    let (payload, done) =
      law.encodes_message (error_message id e) (inr valid) (inl refl) (inl refl) encodable in
    (payload, rw (has, send_peer_error, done) refl)

reply_rpc_error-response :
    (c : Codec) (w : World) (peer : ℕ) (id : Text) (e : ResponseError) (s : Server)
    → reply_rpc_error c w peer id (response e) s ≡ reply_error c w peer id e s
unfolding reply_rpc_error to_response_error as_response
reply_rpc_error-response c w peer id e s = refl

reply_of-error :
    (c : Codec) (w : World) (m : RpcMessage) (e : ResponseError)
    → m.error ≡ some e
    → reply_of c w (answered m) ≡ fails (response e)
unfolding reply_of
reply_of-error c w m e failed = rw failed refl

route_to_peer-failed :
    (c : Codec) (w : World) (caller : ℕ) (caller_id id : Text) (r : Route) (s : Server)
    (e : ResponseError) (request reply : Frame)
    → let i = invoke c w r.hints.target_peer_id r.method (some r.params) s in
      let a = reply_rpc_error c w caller id (response e) i.1 in
      i.0 ≡ fails (response e)
      → i.2 ≡ request ∷ []
      → a.2 ≡ reply ∷ []
      → route_to_peer c w true caller caller_id id r.method r.params r.hints s
        ≡ ((true, a.0), a.1, request ∷ reply ∷ [])
unfolding route_to_peer ◌>>=◌
route_to_peer-failed c w caller caller_id id r s e request reply failed f g = rw (failed, f, g) refl

-- An error is relayed as it is: where the peer that a request names answers with an error that can be
-- encoded, the peer has got one request and the caller gets one response under its own identifier,
-- with the code, the message and the data of that error; nothing else is sent.
pub relay-error :
    (c : Codec) (w : World) (caller : ℕ) (id method params raw : Text) (r : Route) (s : Server)
    (ptr : ℕ) (e : ResponseError) (m : RpcMessage) (to ch : ℕ) (key : Text)
    → IsLawful c
    → has_id id ≡ true
    → c.valid id ≡ true
    → HasEncoding c (some e)
    → (h : IsRelayed c method params r s ptr) → marshal_object c (some r.params) ≡ some raw
    → let called = call_peer c w r.method (some r.params) ptr s in
      called.0 ≡ waiting to key ch
      → (w.await to key ch called.1).0 ≡ answered m
      → m.error ≡ some e
      → let request =
          request_message (make_id c (server_id (add_int64 s.next_server_id))) r.method raw in
        (p q : Text) × ((handle_peer_request c w caller (request_message id method params) s).2
          ≡ record { to = ptr; message = request; payload = p }
            ∷ record { to = caller; message = error_message id e; payload = q }
            ∷ [])
unfolding handle_params
relay-error c w caller id method params raw r s ptr e m to ch key law has valid encodable h encoded
      waits woken failed =
    let caller_id = (s.heap caller).id in
    let i = invoke c w r.hints.target_peer_id r.method (some r.params) s in
    let called =
      call_peer-IsCalling c w r.method raw (some r.params) ptr s to key ch encoded waits in
    let (replied, sent) =
      invoke-answered c w r.hints.target_peer_id r.method r.params ptr s to ch key m
        (begin_invoke-call c w r.hints.target_peer_id r.method r.params ptr s h.has_method
          h.is_connected)
        waits woken in
    let (q, framed) = error_sent c w caller id e i.1 law has valid encodable in
    let request : Frame = record {
      to = ptr;
      message = request_message (make_id c (server_id (add_int64 s.next_server_id))) r.method raw;
      payload = called.payload;
    } in
    let reply : Frame = record { to = caller; message = error_message id e; payload = q } in
    (
      called.payload,
      q,
      ap (λ x. x.2) (to_params c w caller id method params s h.request)
          ∙ ap (λ x. (route_request c w caller caller_id id x s).2) h.parsed
          ∙ after_relay c w caller caller_id id r s _ _ (request ∷ reply ∷ []) (
              route_peer_request-named c w caller caller_id id r s ptr h.not_fanned h.has_peer
                h.is_connected
              ∙ route_to_peer-failed c w caller caller_id id r s e request reply
                  (replied ∙ reply_of-error c w m e failed) (sent ∙ called.sent)
                  (ap (λ x. x.2) (reply_rpc_error-response c w caller id e i.1) ∙ framed)),
    )
