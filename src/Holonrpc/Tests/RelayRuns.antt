-- ===== src/Holonrpc/Tests/RelayRuns.antt =====
-- A run of a request that the server relays to a peer, of pkg/holonrpc.
use go_holons.Holonrpc.RoundTrip.RelayedBroadcast.{relay-broadcast}
use go_holons.Holonrpc.Server.Fanout.{frames_to, pointers}
use go_holons.Holonrpc.RoundTrip.Relayed.{IsRelayed, IsServed, inner_id, relay-Returns}
use go_holons.Holonrpc.RoundTrip.RelayedErrors.{relay-error}
use go_holons.Holonrpc.Value.{null, string}
use go_holons.Holonrpc.Message.{
  ResponseError, error_message, has_id, id_key, make_id, request_message, result_message,
  decode_params, marshal_object, marshal_message, decode_result,
}
use go_holons.Holonrpc.Server.Invoke.{
  invoke, server_id, key_of, call_peer, next_server_id, register_call, marshal_request,
  write_request,
}
use go_holons.Common.Int.{negsuc, add_int64, format_int, int64, decimal}
use go_holons.Common.{not, keep, ◌≡◌, refl, none, some, [], ◌∷◌, ◌++◌, false}
use go_holons.Common.Text.{
  mem_text, Text, text, text_eq, trim_space, trim_left, is_space, after_prefix,
}
use go_holons.Common.Map.{lookup, erase}
use go_holons.Holonrpc.Pending.{empty, register}
use go_holons.Holonrpc.Pending.Laws.{empty-IsValid}
use go_holons.Holonrpc.Routing.{
  Route, parse_route_hints, is_mode, check_mode, check_peer, take_hint, take_fan_out,
  check_full_broadcast,
}
use go_holons.Holonrpc.Server.State.{World, Server, returns, Handler, answered, ◌>>=◌}
use go_holons.Holonrpc.Server.Send.{write_peer}
use go_holons.Holonrpc.Server.Lifecycle.{new_server}
use go_holons.Holonrpc.Server.Request.{handle_peer_request, handle_peer_response}
use go_holons.Holonrpc.Client.Connection.{Client, new_client, connect_to}
use go_holons.Holonrpc.Client.Request.{handle_request}
use go_holons.Holonrpc.Tests.{toy, toy-IsLawful, toy-HasEncoding, request_id}

abbrev greet : Handler
greet params = returns (some [])

abbrev target : Client
target = connect_to 7 (record new_client { handlers = (text "greet", greet) ∷ [] })

abbrev server : Server
server = record (new_server []) {
  peers = (text "c1", 0) ∷ (text "c2", 3) ∷ [];
  heap = λ q. record { id = text "c1"; canceled = false; pending = empty };
}

abbrev s1 : Text
s1 = text "\"s1\""

abbrev world : World
world = record {
  write_error = λ _ _. none;
  await = λ peer key ch s. (answered (result_message s1 (text "{}")), s);
  interrupt = λ _ s. (none, s);
  completion = λ calls. calls;
}

abbrev route : Route
route = record {
  method = text "greet";
  fan_out = false;
  params = [];
  hints = record { target_peer_id = text "c2"; mode = [] };
}

greet-IsRelayed : IsRelayed toy (text "greet") (text "@c2") route server 3
unfolding decode_params trim_space trim_left is_space text text_eq lookup erase new_server
    parse_route_hints is_mode check_mode check_peer take_hint take_fan_out check_full_broadcast
    after_prefix
greet-IsRelayed = record {
  request = record {
    arguments = (text "_peer", string (text "c2")) ∷ [];
    trimmed = refl;
    named = λ e. cc;
    not_heartbeat = refl;
    not_peers = refl;
    readable = refl;
  };
  parsed = refl;
  not_fanned = refl;
  has_peer = refl;
  has_method = refl;
  is_connected = refl;
}

greet-IsServed : IsServed toy (text "greet") (text "{}") target []
unfolding decode_params trim_space trim_left is_space text text_eq lookup new_client
greet-IsServed = record {
  arguments = [];
  handler = greet;
  trimmed = refl;
  named = λ e. cc;
  not_heartbeat = refl;
  readable = refl;
  found = refl;
  gives = refl;
}

relay-Returns_example :
    let called = call_peer toy world (text "greet") (some []) 3 server in
    let asked = request_message (inner_id toy server) (text "greet") (text "{}") in
    let response = result_message (inner_id toy server) (text "{}") in
    (p q z : Text) × (handle_request toy target 7 asked
      ≡ record { to = 7; message = response; payload = z } ∷ [])
    × (((handle_peer_response 3 response called.1).1.heap 3).pending.buffers 0 ≡ some response)
    × ((handle_peer_request toy world 0
          (request_message request_id (text "greet") (text "@c2"))
          server).2
        ≡ record { to = 3; message = asked; payload = p }
          ∷ record { to = 0; message = result_message request_id (text "{}"); payload = q }
          ∷ [])
unfolding call_peer next_server_id register_call marshal_request write_request write_peer register
    empty marshal_object marshal_message trim_space trim_left is_space text text_eq new_server ◌>>=◌
    has_id add_int64 make_id format_int int64 decimal key_of id_key decode_result
relay-Returns_example =
    relay-Returns toy world 0 request_id (text "greet") (text "@c2") (text "{}") route server 3
      target 7 [] 3 0 s1 toy-IsLawful refl refl greet-IsRelayed refl refl greet-IsServed
      (record { raw = text "{}"; written = refl; valid = refl; read = refl }) empty-IsValid refl
      refl

abbrev not_found : ResponseError
not_found = record { code = negsuc 32600; message = text "method not found"; detail = null }

-- The peer answers with an error.
abbrev refusing : World
refusing = record world { await = λ peer key ch s. (answered (error_message s1 not_found), s) }

relay-error_example :
    (p q : Text) × ((handle_peer_request toy refusing 0
        (request_message request_id (text "greet") (text "@c2"))
        server).2
      ≡ record {
        to = 3;
        message =
            request_message (make_id toy (server_id (add_int64 0))) (text "greet") (text "{}");
        payload = p;
      }
        ∷ record { to = 0; message = error_message request_id not_found; payload = q }
        ∷ [])
unfolding call_peer next_server_id register_call marshal_request write_request write_peer register
    empty marshal_object marshal_message trim_space trim_left is_space text text_eq new_server ◌>>=◌
    has_id
relay-error_example =
    relay-error toy refusing 0 request_id (text "greet") (text "@c2") (text "{}") route server 3
      not_found (error_message s1 not_found) 3 0 (key_of (make_id toy (server_id (add_int64 0))))
      toy-IsLawful refl refl (toy-HasEncoding not_found) greet-IsRelayed refl refl refl refl

-- Three peers, and a request that asks to broadcast the response.
abbrev crowd : Server
crowd = record server { peers = (text "c1", 0) ∷ (text "c2", 3) ∷ (text "c3", 4) ∷ [] }

abbrev loud_route : Route
loud_route = record {
  method = text "greet";
  fan_out = false;
  params = [];
  hints = record { target_peer_id = text "c2"; mode = text "broadcast-response" };
}

loud-IsRelayed : IsRelayed toy (text "greet") (text "#c2") loud_route crowd 3
unfolding decode_params trim_space trim_left is_space text text_eq lookup erase new_server
    parse_route_hints is_mode check_mode check_peer take_hint take_fan_out check_full_broadcast
    after_prefix
loud-IsRelayed = record {
  request = record {
    arguments =
        (text "_peer", string (text "c2"))
        ∷ (text "_routing", string (text "broadcast-response"))
        ∷ [];
    trimmed = refl;
    named = λ e. cc;
    not_heartbeat = refl;
    not_peers = refl;
    readable = refl;
  };
  parsed = refl;
  not_fanned = refl;
  has_peer = refl;
  has_method = refl;
  is_connected = refl;
}

relay-broadcast_example :
    let asked = request_message (inner_id toy crowd) (text "greet") (text "{}") in
    let response = result_message (inner_id toy crowd) (text "{}") in
    let by_then = (invoke toy world (text "c2") (text "greet") (some []) crowd).1 in
    let between = (crowd.heap 0).id ∷ text "c2" ∷ [] in
    (p q t z : Text) × (handle_request toy target 7 asked
      ≡ record { to = 7; message = response; payload = z } ∷ [])
    × ((handle_peer_request toy world 0
          (request_message request_id (text "greet") (text "#c2"))
          crowd).2
        ≡ record { to = 3; message = asked; payload = p }
          ∷ (frames_to
                (request_message [] (text "greet") (text "{}"))
                t
                (pointers (keep (λ e. not (mem_text e.0 between)) by_then.peers))
              ++ record { to = 0; message = result_message request_id (text "{}"); payload = q }
                ∷ []))
unfolding call_peer next_server_id register_call marshal_request write_request write_peer register
    empty marshal_object marshal_message trim_space trim_left is_space text text_eq new_server ◌>>=◌
    has_id add_int64 make_id format_int int64 decimal key_of id_key decode_result
relay-broadcast_example =
    relay-broadcast toy world 0 request_id (text "greet") (text "#c2") (text "{}") loud_route crowd
      3 target 7 [] (text "{}") 3 0 s1 toy-IsLawful refl refl loud-IsRelayed refl refl refl
      greet-IsServed (record { raw = text "{}"; written = refl; valid = refl; read = refl }) refl
      refl
