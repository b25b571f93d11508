-- ===== src/Holonrpc/Tests/CallRuns.antt =====
-- Runs of a call from end to end, of pkg/holonrpc.
use go_holons.Common.{refl, none, some, [], ◌∷◌, false}
use go_holons.Common.Int.{add_int64}
use go_holons.Common.Text.{text, text_eq, trim_space, trim_left, is_space, after_prefix}
use go_holons.Common.Map.{lookup, erase}
use go_holons.Holonrpc.Message.{
  make_id, decode_params, marshal_object, marshal_message, decode_result,
}
use go_holons.Holonrpc.Pending.{empty, register}
use go_holons.Holonrpc.Pending.Laws.{empty-IsValid}
use go_holons.Holonrpc.Server.State.{World, Server, returns, Handler, peer_done, ◌>>=◌}
use go_holons.Holonrpc.Server.Send.{write_peer}
use go_holons.Holonrpc.Server.Lifecycle.{new_server}
use go_holons.Holonrpc.Server.Invoke.{
  key_of, server_id, call_peer, next_server_id, register_call, marshal_request, write_request,
}
use go_holons.Holonrpc.Client.Connection.{Client, new_client, connect_to}
use go_holons.Holonrpc.RoundTrip.{ComesBack, Returns, call-Returns}
use go_holons.Holonrpc.RoundTrip.Handled.{IsHandled}
use go_holons.Holonrpc.RoundTrip.ClientCall.{IsAnswered, client_call-IsAnswered}
use go_holons.Holonrpc.Client.Invoke
use go_holons.Holonrpc.Client.Invoke.{client_id, call, written}
use go_holons.Holonrpc.Routing.{
  Route, parse_route_hints, is_mode, check_mode, check_peer, take_hint, take_fan_out,
  check_full_broadcast,
}
use go_holons.Holonrpc.Tests.{toy, toy-IsLawful}

abbrev greet : Handler
greet params = returns (some [])

abbrev client : Client
client = connect_to 7 (record new_client { handlers = (text "greet", greet) ∷ [] })

abbrev server : Server
server = record (new_server []) {
  heap = λ q. record { id = text "c1"; canceled = false; pending = empty };
}

abbrev world : World
world = record {
  write_error = λ _ _. none;
  await = λ peer key ch s. (peer_done, s);
  interrupt = λ _ s. (none, s);
  completion = λ calls. calls;
}

nothing-ComesBack : ComesBack toy []
unfolding marshal_object decode_result trim_space trim_left is_space text text_eq
nothing-ComesBack = record { raw = text "{}"; written = refl; valid = refl; read = refl }

call-Returns_example :
    Returns toy world client 7 0 0 [] (call_peer toy world (text "greet") none 0 server)
unfolding call_peer next_server_id register_call marshal_request write_request write_peer register
    empty marshal_object marshal_message decode_params trim_space trim_left is_space text text_eq
    lookup new_server ◌>>=◌ add_int64
call-Returns_example =
    call-Returns toy world (text "greet") (text "{}") none [] [] greet server client 7 0 0 0
      (key_of (make_id toy (server_id 1))) toy-IsLawful refl (λ e. cc) refl refl refl refl refl
      nothing-ComesBack empty-IsValid refl

abbrev to_greet : Route
to_greet = record {
  method = text "greet";
  fan_out = false;
  params = [];
  hints = record { target_peer_id = []; mode = [] };
}

-- The server with the same handler.
abbrev greeter : Server
greeter = record server { handlers = (text "greet", greet) ∷ [] }

greet-IsHandled : IsHandled toy world (text "greet") (text "{}") greeter []
unfolding parse_route_hints is_mode check_mode check_peer take_hint take_fan_out
    check_full_broadcast text text_eq trim_space trim_left is_space after_prefix lookup erase
    decode_params
greet-IsHandled = record {
  request = record {
    arguments = [];
    trimmed = refl;
    named = λ e. cc;
    not_heartbeat = refl;
    not_peers = refl;
    readable = refl;
  };
  route = to_greet;
  handler = greet;
  parsed = refl;
  not_fanned = refl;
  no_peer = refl;
  found = refl;
  undisturbed = refl;
  gives = refl;
}

abbrev quiet : Invoke.World
quiet = record { write_error = λ _ _. none; await = λ ws key ch s. (peer_done, s) }

client_call-IsAnswered_example :
    IsAnswered toy world quiet greeter 7 3 0 [] (call toy quiet 7 (text "greet") none client)
unfolding call marshal_request write_request written register empty marshal_object marshal_message
    new_client text add_int64
client_call-IsAnswered_example =
    client_call-IsAnswered toy world quiet (text "greet") (text "{}") none [] client greeter 7 3 7 0
      (key_of (make_id toy (client_id 1))) toy-IsLawful refl greet-IsHandled nothing-ComesBack
      empty-IsValid refl
