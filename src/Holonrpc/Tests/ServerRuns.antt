-- ===== src/Holonrpc/Tests/ServerRuns.antt =====
-- Runs of the server of pkg/holonrpc/server.go and pkg/holonrpc/routing.go.
use mathlib.Core.List.{Perm}
use mathlib.Core.List.Perm
use go_holons.Common.{
  ◌≡◌, refl, ◌⊎◌, inr, none, some, List, [], ◌∷◌, ◌++◌, true, false, not, ◌==◌, if◌then◌else◌, map,
  keep,
}
use go_holons.Common.Text.{Text, text, text_eq, trim_space, trim_left, is_space}
use go_holons.Common.Map.{lookup, keys}
use go_holons.Holonrpc.Message.{
  RpcMessage, make_id, has_id, request_message, result_message, marshal_object, marshal_message,
  decode_result,
}
use go_holons.Holonrpc.Pending.{empty, register}
use go_holons.Holonrpc.Server.State.{World, Server, Peer, returns, Handler, answered, ◌>>=◌}
use go_holons.Holonrpc.Server.Invoke.{
  key_of, server_id, invoke, finish_invoke, begin_invoke, call_peer, next_server_id, register_call,
  marshal_request, write_request, take_answer, forget_call, wait, reply_of,
}
use go_holons.Holonrpc.Server.Send.{write_peer}
use go_holons.Holonrpc.Server.Route.{
  FanoutResult, dispatch_fan_out, begin_all, finish_all, snapshot_peer_ids_excluding,
}
use go_holons.Holonrpc.Server.Request.{handle_peer_request}
use go_holons.Holonrpc.Server.Sends.{responses}
use go_holons.Holonrpc.Server.Replies.{IsDroppedRequest}
use go_holons.Holonrpc.Server.Answers.{
  IsReply, handle_peer_request_notification, handle_peer_request_answered,
}
use go_holons.Holonrpc.Server.Forgets.{invoke-forgets}
use go_holons.Common.Int.{add_int64}
use go_holons.Holonrpc.Server.Fanout.{dispatch_fan_out-peers}
use go_holons.Holonrpc.Server.Lifecycle.{
  Net, closes_listener, closes_server, failed, server_is_closed, new_server, start, close, bind,
}
use go_holons.Holonrpc.Server.Lives.{
  IsServer, new_server-IsServer, Life, starts, upgrades, detaches, waits, closes, live_all,
  live_all-IsServer,
}
use go_holons.Holonrpc.Server.Shutdown.{IsCut, close_final, close_cuts, bind_keeps_or_closes}
use go_holons.Holonrpc.Tests.{toy, toy-IsLawful, toy-HasEncoding, request_id}

abbrev first : Text
first = text "c1"

abbrev second : Text
second = text "c2"

abbrev idle : Text → Peer
idle id = record { id = id; canceled = false; pending = empty }

abbrev echo : Handler
echo params = returns (some params)

-- Two peers and a handler.
abbrev server : Server
server = record (new_server (text "ws://127.0.0.1:0/rpc")) {
  handlers = (text "greet", echo) ∷ [];
  peers = (first, 0) ∷ (second, 1) ∷ [];
  heap = λ q. if q == 0 then idle first else idle second;
  next_peer = 2;
}

abbrev empty_result : Text → RpcMessage
empty_result id = result_message id (text "{}")

abbrev world : World
world = record {
  write_error = λ _ _. none;
  await = λ peer key ch s. (answered (empty_result key), s);
  interrupt = λ _ s. (none, s);
  completion = λ calls. calls;
}

abbrev net : Net
net = record {
  parse_url = λ t. inr (record { scheme = text "ws"; hostname = []; port = []; escaped_path = [] });
  join_host_port = λ host port. host ++ port;
  listen = λ t. inr (5, t);
  shutdown_error = λ _. none;
  is_server_closed = λ _. true;
  meanwhile = λ s. s;
}

abbrev notice : RpcMessage
notice = request_message [] (text "greet") []

abbrev request : RpcMessage
request = request_message request_id (text "*.greet") []

handle_peer_request_notification_example :
    responses (handle_peer_request toy world 0 notice server).2 ≡ []
unfolding has_id trim_space trim_left
handle_peer_request_notification_example =
    handle_peer_request_notification toy world 0 notice server refl

handle_peer_request_answered_example :
    IsReply 0 request_id (responses (handle_peer_request toy world 0 request server).2)
    ⊎ ((responses (handle_peer_request toy world 0 request server).2 ≡ [])
        × IsDroppedRequest toy world request server)
unfolding has_id trim_space trim_left is_space text text_eq
handle_peer_request_answered_example =
    handle_peer_request_answered toy world 0 request server toy-IsLawful toy-HasEncoding refl refl

invoke-forgets_example :
    lookup
      (key_of (make_id toy (server_id (add_int64 server.next_server_id))))
      ((invoke toy world second (text "greet") (some []) server).1.heap 1).pending.table
    ≡ none
unfolding trim_space trim_left is_space text text_eq lookup new_server
invoke-forgets_example = invoke-forgets toy world second (text "greet") (some []) 1 server refl refl

-- The server while a call of the first peer waits.
abbrev calling : Server
calling = record server {
  heap = λ q. record (server.heap q) { pending = (register request_id empty).1 };
}

abbrev entry : FanoutResult
entry = record { peer = second; result = some []; error = none }

dispatch_fan_out-peers_example :
    Perm (map (λ r. r.peer) (entry ∷ [])) (keep (λ id. not (text_eq id first)) (keys server.peers))
unfolding dispatch_fan_out ◌>>=◌ snapshot_peer_ids_excluding begin_all finish_all begin_invoke
    call_peer next_server_id register_call marshal_request write_request write_peer finish_invoke
    wait take_answer forget_call reply_of decode_result marshal_object marshal_message trim_space
    trim_left is_space text text_eq lookup new_server
dispatch_fan_out-peers_example =
    dispatch_fan_out-peers toy world first (text "greet") [] server (entry ∷ []) Perm.refl refl

close_cuts_example : IsCut ((close toy net server).1.heap 1) × ((close toy net server).1.peers ≡ [])
unfolding lookup text text_eq new_server
close_cuts_example = close_cuts toy net server second 1 refl refl

close_final_example :
    (start toy net (close toy net server).1
      ≡ (failed server_is_closed, (close toy net server).1, []))
    × (close toy net (close toy net server).1 ≡ (none, (close toy net server).1, []))
close_final_example = close_final toy net net server (λ s h. h)

bind_keeps_or_closes_example :
    let r = bind toy net (text "/rpc") (inr (5, [])) server in
    ((r.1.listener ≡ some 5) × (r.1.server ≡ some 5) × (r.2 ≡ []))
    ⊎ ((r.1 ≡ server) × (r.2 ≡ closes_listener 5 ∷ closes_server 5 ∷ []))
bind_keeps_or_closes_example = bind_keeps_or_closes toy net (text "/rpc") 5 [] server

abbrev life : List Life
life = starts net ∷ upgrades (some (text "holon-rpc")) ∷ waits ∷ detaches 0 ∷ closes net ∷ []

live_all-IsServer_example : IsServer (live_all toy life (new_server []))
live_all-IsServer_example =
    live_all-IsServer toy life (new_server []) ((λ s v. v), (tt, (tt, (tt, ((λ s v. v), tt)))))
      (new_server-IsServer [])
