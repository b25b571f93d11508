-- ===== src/Holonrpc/Server/Replies.antt =====
-- Where the reply of a request is sent: `handlePeerRequest` of pkg/holonrpc/server.go with
-- `routePeerRequest` of pkg/holonrpc/routing.go. A predicate P stands for what a caller of these
-- lemmas claims of the responses that one request causes.
use mathlib.Core.List.{append-nil}
use go_holons.Common.{
  ℕ, ◌≡◌, ◌≢◌, refl, Option, none, some, List, [], ◌++◌, Bool, true, false, not, ◌||◌, keep-append,
  if◌then◌else◌,
}
use go_holons.Common.Text.{Text, text, text_eq, is_empty, trim_space}
use go_holons.Common.Map.{lookup}
use go_holons.Holonrpc.Value.{Value, Object}
use go_holons.Holonrpc.Message.{
  Codec, RpcMessage, ResponseError, Error, has_id, json_rpc_version, is_canceled,
  is_deadline_exceeded, decode_params,
}
use go_holons.Holonrpc.Routing.{Result, ok, err, Route, RouteHints, parse_route_hints}
use go_holons.Holonrpc.Routing.{route_mode_full_broadcast, route_mode_broadcast_response}
use go_holons.Holonrpc.Routing.Laws.{parse_route_hints-IsRoute}
use go_holons.Holonrpc.Server.State.{
  World, Server, Frame, Reply, returns, fails, Handler, M, pure, gets, ◌>>=◌,
}
use go_holons.Holonrpc.Server.Send.{
  to_response_error, send_peer_error, send_peer_result_any, reply_error, reply_result,
  reply_rpc_error,
}
use go_holons.Holonrpc.Server.Invoke.{invoke}
use go_holons.Holonrpc.Server.Route.{
  FanoutResult, peer_exists, dispatch_fan_out, no_connected_peers, answer_fan_out, answer_invoke,
  route_fan_out, route_to_peer, route_named, route_peer_request,
}
use go_holons.Holonrpc.Server.Request.{
  call_peer_handler, answer_handler, run_handler, after_route, route_request, handle_params,
  handle_peer_request,
}
use go_holons.Holonrpc.Server.Sends.{
  responses, is_response, Ends, by_states, Ends-if, Settles, Settles->>=,
}
use go_holons.Holonrpc.Server.Silence.{
  invoke-IsSilent, broadcast_entries-IsSilent, broadcast_notification_many-IsSilent,
  dispatch_fan_out-IsSilent,
}

-- The code drops the outcome of a handler whose context was cancelled or timed out.
abbrev pub IsDropped : Reply → Type 0
IsDropped (returns out) = ⊥
IsDropped (fails e) = (is_canceled e || is_deadline_exceeded e) ≡ true

-- A request whose handler's outcome is dropped: it is not routed, its method has a handler, and
-- the context of that handler ended, or the handler says so.
pub record IsDroppedRequest (c : Codec) (w : World) (m : RpcMessage) (s : Server) : Type 0 where
  pub params : Object
  pub route : Route
  pub handler : Handler
  pub decoded : decode_params c m.params ≡ some params
  pub parsed : parse_route_hints c (trim_space m.method) params ≡ ok route
  pub found : lookup route.method s.handlers ≡ some handler
  pub outcome : IsDropped (call_peer_handler c w handler route.params s).0

-- The router has seen to the reply.
abbrev Routed : (List Frame → Type 0) → Bool × Option Error → List Frame → Type 0
Routed P r fs = (r.0 ≡ true) × P fs

module _ (c : Codec) (w : World) (peer : ℕ) (id : Text) (P : List Frame → Type 0)
    (error_sent : (e : ResponseError) → has_id id ≡ true → Ends P (send_peer_error c w peer id e))
    (result_sent : (v : Value)
      → has_id id ≡ true
      → Ends P (send_peer_result_any c w peer id (some v)))
    (notification : has_id id ≡ false → P []) where
  reply_error-Ends : (e : ResponseError) → Ends P (reply_error c w peer id e)
  unfolding reply_error
  reply_error-Ends e = Ends-if P (has_id id) _ _ (error_sent e) (λ h. by_states λ s. notification h)

  reply_result-Ends : (v : Value) → Ends P (reply_result c w peer id v)
  unfolding reply_result
  reply_result-Ends v =
      Ends-if P (has_id id) _ _ (result_sent v) (λ h. by_states λ s. notification h)

  reply_rpc_error-Ends : (e : Error) → Ends P (reply_rpc_error c w peer id e)
  unfolding reply_rpc_error
  reply_rpc_error-Ends e = reply_error-Ends (to_response_error c e)

  Routed-Settles :
      (m : M (Option Error)) → Ends P m → Settles (Routed P) (m >>= λ failed. pure (true, failed))
  unfolding ◌>>=◌
  Routed-Settles m h = record { settles = λ s. (refl, rw append-nil (h.ends s)) }

  answer_fan_out-Settles :
      (caller_id method : Text) (hints : RouteHints) (entries : Option (List FanoutResult))
      → method ≢ []
      → Settles (Routed P) (answer_fan_out c w peer caller_id id method hints entries)
  answer_fan_out-Settles caller_id method hints none h =
      Routed-Settles (reply_error c w peer id no_connected_peers) (reply_error-Ends _)
  answer_fan_out-Settles caller_id method hints (some entries) h =
      Settles->>= (Routed P) _ _
        (Ends-if _ (text_eq hints.mode route_mode_full_broadcast) _ _
          (λ _. broadcast_entries-IsSilent c w caller_id method entries h)
          (λ _. by_states λ s. refl))
        λ _. Routed-Settles (reply_result c w peer id _) (reply_result-Ends _)

  answer_invoke-Settles :
      (caller_id method : Text) (hints : RouteHints) (reply : Reply)
      → method ≢ []
      → Settles (Routed P) (answer_invoke c w peer caller_id id method hints reply)
  answer_invoke-Settles caller_id method hints (fails e) h =
      Routed-Settles (reply_rpc_error c w peer id e) (reply_rpc_error-Ends e)
  answer_invoke-Settles caller_id method hints (returns out) h =
      Settles->>= (Routed P) _ _
        (Ends-if _ (text_eq hints.mode route_mode_broadcast_response) _ _
          (λ _. broadcast_notification_many-IsSilent c w _ method _ h) (λ _. by_states λ s. refl))
        λ _. Routed-Settles (reply_result c w peer id _) (reply_result-Ends _)

  route_to_peer-Settles :
      (exists : Bool) (caller_id method : Text) (params : Object) (hints : RouteHints)
      → method ≢ []
      → Settles (Routed P) (route_to_peer c w exists peer caller_id id method params hints)
  unfolding route_to_peer
  route_to_peer-Settles false caller_id method params hints h =
      Routed-Settles (reply_error c w peer id _) (reply_error-Ends _)
  route_to_peer-Settles true caller_id method params hints h =
      Settles->>= (Routed P) (invoke c w hints.target_peer_id method (some params)) _
        (invoke-IsSilent c w hints.target_peer_id method (some params) h)
        λ reply. answer_invoke-Settles caller_id method hints reply h

  answer_handler-Ends :
      (reply : Reply) (s : Server)
      → (IsDropped reply → P [])
      → P (responses (answer_handler c w peer id reply s).2)
  unfolding answer_handler
  answer_handler-Ends (returns out) s dropped = (reply_result-Ends _).ends s
  answer_handler-Ends (fails failure) s dropped =
      (Ends-if P (is_canceled failure || is_deadline_exceeded failure) _ _
          (λ cancels. by_states λ _. dropped cancels) (λ _. reply_error-Ends _)).ends
        s

  run_handler-Ends :
      (method : Text) (params : Object) (found : Option Handler) (s : Server)
      → ((h : Handler) → found ≡ some h → IsDropped (call_peer_handler c w h params s).0 → P [])
      → P (responses (run_handler c w peer id method params found s).2)
  unfolding run_handler call_peer_handler ◌>>=◌
  run_handler-Ends method params none s dropped = (reply_error-Ends _).ends s
  run_handler-Ends method params (some h) s dropped =
      answer_handler-Ends (call_peer_handler c w h params s).0 (call_peer_handler c w h params s).1
        (dropped h refl)

  routed_tail :
      (method : Text) (params : Object) (r : Bool × Option Error) (fs : List Frame) (s : Server)
      → Routed P r fs
      → P (fs ++ responses (after_route c w peer id method params r s).2)
  routed_tail method params (true, failed) fs s h = rw append-nil h.1
  routed_tail method params (false, failed) fs s h = cc h.0

  -- After a step that has seen to the reply, nothing more is sent.
  after_route-Ends :
      (method : Text) (params : Object) (m : M (Bool × Option Error)) (s : Server)
      → Settles (Routed P) m
      → P (responses ((m >>= after_route c w peer id method params) s).2)
  unfolding ◌>>=◌
  after_route-Ends method params m s h =
      rw (keep-append is_response (m s).2)
        (routed_tail method params (m s).0 (responses (m s).2) (m s).1 (h.settles s))

  route_fan_out-Settles :
      (caller_id method : Text) (params : Object) (hints : RouteHints)
      → method ≢ []
      → Settles (Routed P) (route_fan_out c w peer caller_id id method params hints)
  unfolding route_fan_out
  route_fan_out-Settles caller_id method params hints h =
      Settles->>= (Routed P) (dispatch_fan_out c w caller_id method params) _
        (dispatch_fan_out-IsSilent c w caller_id method params h)
        λ entries. answer_fan_out-Settles caller_id method hints entries h

  route_named-Settles :
      (caller_id method : Text) (params : Object) (hints : RouteHints)
      → method ≢ []
      → Settles (Routed P) (route_named c w peer caller_id id method params hints)
  unfolding route_named
  route_named-Settles caller_id method params hints h =
      Settles->>= (Routed P) (gets (peer_exists hints.target_peer_id)) _ (by_states λ s. refl)
        λ exists. route_to_peer-Settles exists caller_id method params hints h

  -- The branches of the router, each followed by the rest of `handlePeerRequest`.
  route_branches-Ends :
      (fan_out unnamed : Bool) (caller_id : Text) (r : Route) (s : Server)
      → r.method ≢ []
      → ((h : Handler)
          → lookup r.method s.handlers ≡ some h
          → IsDropped (call_peer_handler c w h r.params s).0
          → P [])
      → P (
          responses
            (((if fan_out
                  then route_fan_out c w peer caller_id id r.method r.params r.hints
                  else if unnamed
                  then pure (false, none)
                  else route_named c w peer caller_id id r.method r.params r.hints)
                >>= after_route c w peer id r.method r.params)
              s).2)
  unfolding ◌>>=◌
  route_branches-Ends true unnamed caller_id r s named dropped =
      after_route-Ends r.method r.params _ s
        (route_fan_out-Settles caller_id r.method r.params r.hints named)
  route_branches-Ends false true caller_id r s named dropped =
      run_handler-Ends r.method r.params (lookup r.method s.handlers) s dropped
  route_branches-Ends false false caller_id r s named dropped =
      after_route-Ends r.method r.params _ s
        (route_named-Settles caller_id r.method r.params r.hints named)

  route_request-Ends :
      (caller_id : Text) (r : Result Route) (s : Server)
      → ((route : Route) → r ≡ ok route → route.method ≢ [])
      → ((route : Route) (h : Handler)
          → r ≡ ok route
          → lookup route.method s.handlers ≡ some h
          → IsDropped (call_peer_handler c w h route.params s).0
          → P [])
      → P (responses (route_request c w peer caller_id id r s).2)
  unfolding route_request route_peer_request
  route_request-Ends caller_id (err e) s named dropped = (reply_error-Ends e).ends s
  route_request-Ends caller_id (ok r) s named dropped =
      route_branches-Ends r.fan_out (is_empty r.hints.target_peer_id) caller_id r s (named r refl)
        λ h found d. dropped r h refl found d

  handle_params-Ends :
      (caller_id method : Text) (params : Option Object) (s : Server)
      → ((p : Object) (route : Route) (h : Handler)
          → params ≡ some p
          → parse_route_hints c method p ≡ ok route
          → lookup route.method s.handlers ≡ some h
          → IsDropped (call_peer_handler c w h route.params s).0
          → P [])
      → P (responses (handle_params c w peer caller_id id method params s).2)
  unfolding handle_params
  handle_params-Ends caller_id method none s dropped = (reply_error-Ends _).ends s
  handle_params-Ends caller_id method (some params) s dropped =
      route_request-Ends caller_id (parse_route_hints c method params) s
        (λ r e. (parse_route_hints-IsRoute c method params r e).named)
        λ route h e found d. dropped params route h refl e found d

-- A claim that holds of every reply that the code may send for a request, of no response where
-- the request is a notification, and of no response where its handler's outcome is dropped, holds
-- of the responses that `handlePeerRequest` sends.
module _ (c : Codec) (w : World) (peer : ℕ) (m : RpcMessage) (s : Server) (P : List Frame → Type 0)
    (error_sent : (e : ResponseError)
      → has_id m.id ≡ true
      → Ends P (send_peer_error c w peer m.id e))
    (result_sent : (v : Value)
      → has_id m.id ≡ true
      → Ends P (send_peer_result_any c w peer m.id (some v)))
    (notification : has_id m.id ≡ false → P []) (dropped : IsDroppedRequest c w m s → P []) where
  abbrev Holds : M (Option Error) → Type 0
  Holds k = P (responses (k s).2)

  Holds-if : (b : Bool) (x y : M (Option Error)) → Holds x → Holds y → Holds (if b then x else y)
  Holds-if true x y h k = h
  Holds-if false x y h k = k

  pub handle_peer_request-Holds : P (responses (handle_peer_request c w peer m s).2)
  unfolding handle_peer_request ◌>>=◌
  handle_peer_request-Holds =
      let bad = reply_error-Ends c w peer m.id P error_sent result_sent notification in
      let good = reply_result-Ends c w peer m.id P error_sent result_sent notification in
      let method = trim_space m.method in
      Holds-if (not (text_eq m.jsonrpc json_rpc_version)) _ _ ((bad _).ends s) (
        Holds-if (is_empty method) _ _ ((bad _).ends s) (
          Holds-if (text_eq method (text "rpc.heartbeat")) _ _ ((good _).ends s) (
            Holds-if (text_eq method (text "rpc.peers")) _ _ ((good _).ends s) (
              handle_params-Ends c w peer m.id P error_sent result_sent notification
                (s.heap peer).id method (decode_params c m.params) s
                λ p r h decoded parsed found outcome. dropped (record {
                  params = p;
                  route = r;
                  handler = h;
                  decoded = decoded;
                  parsed = parsed;
                  found = found;
                  outcome = outcome;
                })))))
