-- ===== src/Holonrpc/Tests/ClientRuns.antt =====
-- Runs of the client of pkg/holonrpc/client.go.
use go_holons.Common.{◌≡◌, ◌≢◌, refl, none, some, List, [], ◌∷◌, false}
use go_holons.Common.Text.{Text, text, text_eq, trim_space, trim_left, is_space}
use go_holons.Holonrpc.Value.{Object}
use go_holons.Holonrpc.Message.{RpcMessage, has_id, request_message, result_message}
use go_holons.Holonrpc.Pending.{register, empty}
use go_holons.Holonrpc.Server.State.{returns, Handler, answered}
use go_holons.Holonrpc.Server.Answers.{IsReply}
use go_holons.Holonrpc.Client.Connection.{
  Client, Dialer, dialed, new_client, connect, connected, close, current_conn, client_is_closed,
  connect_to,
}
use go_holons.Holonrpc.Client.Request.{handle_request}
use go_holons.Holonrpc.Client.Invoke.{World}
use go_holons.Holonrpc.Client.Answers.{handle_request_notification, handle_request_answered}
use go_holons.Holonrpc.Client.Lives.Steps.{
  Life, connects_with_reconnect, disconnects, attempts, closes_client,
}
use go_holons.Holonrpc.Client.Lives.Ends.{close_client_final}
use go_holons.Holonrpc.Tests.{toy, toy-IsLawful, toy-HasEncoding, request_id}

abbrev echo : Handler
echo params = returns (some params)

abbrev url : Text
url = text "ws://localhost/rpc"

abbrev greeting : Object
greeting = []

-- A new client with one handler, and with one connection.
abbrev client : Client
client = connect_to 7 (record new_client { handlers = (text "greet", echo) ∷ [] })

abbrev dialer : Dialer
dialer = record { dial = λ _. dialed 7 (text "holon-rpc"); meanwhile = λ s. s }

abbrev world : World
world = record {
  write_error = λ _ _. none;
  await = λ ws key ch s. (answered (result_message key (text "{}")), s);
}

abbrev notice : RpcMessage
notice = request_message [] (text "greet") []

abbrev request : RpcMessage
request = request_message request_id (text "greet") []

handle_request_notification_example : handle_request toy client 7 notice ≡ []
unfolding has_id trim_space trim_left
handle_request_notification_example = handle_request_notification toy client 7 notice refl

handle_request_answered_example : IsReply 7 request_id (handle_request toy client 7 request)
unfolding has_id trim_space trim_left is_space text text_eq
handle_request_answered_example =
    handle_request_answered toy client 7 request toy-IsLawful toy-HasEncoding refl refl

-- The client while a call waits.
abbrev calling : Client
calling = record client { pending = (register request_id empty).1 }

abbrev reply : RpcMessage
reply = result_message request_id (text "{}")

abbrev life : List Life
life =
    connects_with_reconnect dialer url ∷ disconnects 7 ∷ attempts dialer ∷ closes_client dialer ∷ []

close_client_final_example :
    let s' = (close toy dialer client).1 in
    (connected s' ≡ false)
    × ((connect dialer url s').0 ≢ none)
    × ((connect dialer url s').1 ≡ s')
    × (current_conn toy s' ≡ (none, some client_is_closed))
    × (close toy dialer s' ≡ (tt, s', []))
close_client_final_example = close_client_final toy dialer dialer url client (λ s shut. shut)
