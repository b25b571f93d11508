-- ===== src/Holonrpc/RoundTrip/RelayedBroadcast.antt =====
-- A request that names a peer and asks for the mode `broadcast-response` of pkg/holonrpc/routing.go:
-- the others hear of the answer.
use go_holons.Common.{ℕ, ◌≡◌, refl, ap, ◌∙◌, some, List, [], ◌∷◌, ◌++◌, true, inl, inr, not, keep}
use go_holons.Common.Int.{add_int64}
use go_holons.Common.Text.{Text, text, text_eq, mem_text}
use go_holons.Holonrpc.Value.{Object, string, object, of_entries}
use go_holons.Holonrpc.Message.{
  Codec, IsLawful, has_id, request_message, result_message, marshal_object, marshal_message,
}
use go_holons.Holonrpc.Routing.{Route, route_mode_broadcast_response}
use go_holons.Holonrpc.Server.State.{World, Server, Frame, returns, answered, waiting, ◌>>=◌}
use go_holons.Holonrpc.Server.Send.{any_of_map}
use go_holons.Holonrpc.Server.Invoke.{invoke, call_peer}
use go_holons.Holonrpc.Server.Route.{route_to_peer, broadcast_notification_many}
use go_holons.Holonrpc.Server.Fanout.{frames_to, pointers, broadcast_notification_many-frames}
use go_holons.Holonrpc.Server.Request.{
  answer_handler, route_request, handle_params, handle_peer_request,
}
use go_holons.Holonrpc.Client.Connection.{Client}
use go_holons.Holonrpc.Client.Request.{handle_request}
use go_holons.Holonrpc.RoundTrip.{ComesBack, call_peer-IsCalling, reply_of-result}
use go_holons.Holonrpc.RoundTrip.Handled.{to_params, result_sent}
use go_holons.Holonrpc.RoundTrip.Relayed.{
  IsRelayed, IsServed, inner_id, served_reply, begin_invoke-call, invoke-answered,
  route_peer_request-named, after_relay,
}

-- What the others are told.
abbrev pub news : Text → Object → Object
news peer out = (text "peer", string peer) ∷ (text "result", any_of_map (some out)) ∷ []

route_to_peer-broadcast :
    (c : Codec) (w : World) (caller : ℕ) (caller_id id : Text) (r : Route) (s : Server)
    (out : Object) (request reply : Frame)
    → text_eq r.hints.mode route_mode_broadcast_response ≡ true
    → let to = r.hints.target_peer_id in
      let i = invoke c w to r.method (some r.params) s in
      let told = broadcast_notification_many c w (caller_id ∷ to ∷ []) r.method (news to out) i.1 in
      let a = answer_handler c w caller id (returns (some out)) told.1 in
      i.0 ≡ returns (some out)
      → i.2 ≡ request ∷ []
      → a.2 ≡ reply ∷ []
      → route_to_peer c w true caller caller_id id r.method r.params r.hints s
        ≡ ((true, a.0), a.1, request ∷ (told.2 ++ reply ∷ []))
unfolding route_to_peer answer_handler ◌>>=◌
route_to_peer-broadcast c w caller caller_id id r s out request reply mode e f g =
    rw (e, mode, f, g) refl

-- A payload that can be encoded reaches every peer but the excluded ones, once.
told_all :
    (c : Codec) (w : World) (exclude : List Text) (method : Text) (payload : Object) (s : Server)
    (raw : Text)
    → IsLawful c
    → marshal_object c (some payload) ≡ some raw
    → (framed : Text) × ((broadcast_notification_many c w exclude method payload s).2
        ≡ frames_to
            (request_message [] method raw)
            framed
            (pointers (keep (λ e. not (mem_text e.0 exclude)) s.peers)))
unfolding marshal_object marshal_message
told_all c w exclude method payload s raw law encoded =
    let valid = law.encodes_valid (object (of_entries payload)) raw encoded in
    let (framed, done) =
      law.encodes_message (request_message [] method raw) (inl refl) (inr valid) (inl refl) tt in
    (
      framed,
      broadcast_notification_many-frames c w exclude method payload s raw framed encoded done,
    )

-- With `broadcast-response`: the peer that a request names, which the server neither answers itself
-- nor fans out, gets one request; where that peer, a client with a handler for it, answers and wakes
-- the call, every peer that is connected by then, but the caller and that peer, gets one notification
-- of the method, with the peer's name and its result, if they can be encoded; and then the caller gets
-- one response under its own identifier with that result, if the encoder reads back what it writes
-- for it; nothing else is sent.
pub relay-broadcast :
    (c : Codec) (w : World) (caller : ℕ) (id method params raw : Text) (r : Route) (s : Server)
    (ptr : ℕ) (target : Client) (ws : ℕ) (out : Object) (told : Text) (to ch : ℕ) (key : Text)
    → IsLawful c
    → has_id id ≡ true
    → c.valid id ≡ true
    → (h : IsRelayed c method params r s ptr)
    → text_eq r.hints.mode route_mode_broadcast_response ≡ true
    → marshal_object c (some r.params) ≡ some raw
    → marshal_object c (some (news r.hints.target_peer_id out)) ≡ some told
    → IsServed c r.method raw target out
    → (back : ComesBack c out)
    → let called = call_peer c w r.method (some r.params) ptr s in
      let request = request_message (inner_id c s) r.method raw in
      let response = result_message (inner_id c s) back.raw in
      called.0 ≡ waiting to key ch
      → (w.await to key ch called.1).0 ≡ answered response
      → let by_then = (invoke c w r.hints.target_peer_id r.method (some r.params) s).1 in
        let between = (s.heap caller).id ∷ r.hints.target_peer_id ∷ [] in
        (p q t z : Text) × (handle_request c target ws request
          ≡ record { to = ws; message = response; payload = z } ∷ [])
        × ((handle_peer_request c w caller (request_message id method params) s).2
            ≡ record { to = ptr; message = request; payload = p }
              ∷ (frames_to
                    (request_message [] r.method told)
                    t
                    (pointers (keep (λ e. not (mem_text e.0 between)) by_then.peers))
                  ++ record { to = caller; message = result_message id back.raw; payload = q }
                    ∷ []))
unfolding handle_params
relay-broadcast c w caller id method params raw r s ptr target ws out told to ch key law has valid h
      mode encoded telling served back waits woken =
    let caller_id = (s.heap caller).id in
    let peer = r.hints.target_peer_id in
    let n = add_int64 s.next_server_id in
    let i = invoke c w peer r.method (some r.params) s in
    let sends =
      broadcast_notification_many c w (caller_id ∷ peer ∷ []) r.method (news peer out) i.1 in
    let calling =
      call_peer-IsCalling c w r.method raw (some r.params) ptr s to key ch encoded waits in
    let (replied, sent) =
      invoke-answered c w peer r.method r.params ptr s to ch key
        (result_message (inner_id c s) back.raw)
        (begin_invoke-call c w peer r.method r.params ptr s h.has_method h.is_connected) waits
        woken in
    let (z, answers) = served_reply c target ws n r.method raw out law served back in
    let (q, framed) = result_sent c w caller id out sends.1 law has valid back in
    let (t, all_told) =
      told_all c w (caller_id ∷ peer ∷ []) r.method (news peer out) i.1 told law telling in
    let request : Frame = record {
      to = ptr;
      message = request_message (inner_id c s) r.method raw;
      payload = calling.payload;
    } in
    let reply : Frame = record { to = caller; message = result_message id back.raw; payload = q } in
    (
      calling.payload,
      q,
      t,
      z,
      answers,
      ap (λ x. x.2) (to_params c w caller id method params s h.request)
          ∙ ap (λ x. (route_request c w caller caller_id id x s).2) h.parsed
          ∙ after_relay c w caller caller_id id r s _ _ (request ∷ (sends.2 ++ reply ∷ [])) (
              route_peer_request-named c w caller caller_id id r s ptr h.not_fanned h.has_peer
                h.is_connected
              ∙ route_to_peer-broadcast c w caller caller_id id r s out request reply mode
                  (replied ∙ reply_of-result c w (inner_id c s) out back) (sent ∙ calling.sent)
                  framed)
          ∙ ap (λ l. request ∷ (l ++ reply ∷ [])) all_told,
    )
