-- ===== src/Transport/Tests.antt =====
-- Runs of pkg/transport, with a small encoder and a host where everything succeeds.
use go_holons.Common.{inl, inr}
use go_holons.Holonrpc.Message.{plain}
use go_holons.Common.{
  ◌≡◌, ◌≢◌, ◌↔◌, ◌≤◌, refl, ◌⊎◌, none, some, List, [], ◌∷◌, ◌++◌, true, false, length, arith,
}
use go_holons.Common.Text.{Text, text, mem_text}
use go_holons.Common.Int.{add_int64}
use go_holons.Holonrpc.Pending.{empty, register}
use go_holons.Holonrpc.Pending.Laws.{view, empty-IsValid}
use go_holons.Transport.WebBridge.{
  WsMsg, WebCodec, returns, WebHandler, WebBridge, WebConn, new_web_bridge, register_handler,
  forbidden, allow_origins, admit, ws_request, ws_result, or_empty_object, handle_response,
}
use go_holons.Transport.WebBridge.Invoke.{
  WebWorld, answered, result, web_id, begin_invoke, write_call, outcome_of,
}
use go_holons.Transport.WebBridge.Answers.{admit-allow_origins}
use go_holons.Transport.WebBridge.Calls.{web_call-returns}
use go_holons.Transport.Listeners.{WsListener, ws_queue_limit}
use go_holons.Transport.Listeners.Runs.{
  WsStep, upgrades, accepts, closes, ws_run, queued_in, delivered_in, ws_run-fifo,
}
use go_holons.Transport.Uri.{Host}

abbrev toy : WebCodec
toy = record {
  decode = λ _. none;
  valid = λ _. true;
  encode = λ m. some (m.id ++ m.method ++ m.result);
  quote = λ t. t;
}

abbrev echo : WebHandler
echo params = returns params

abbrev bridge : WebBridge
bridge = register_handler (text "echo") echo new_web_bridge

abbrev message : WsMsg
message = ws_request (text "1") (text "echo") []

abbrev here : Text
here = text "https://a.example"

admit-allow_origins_example :
    (admit here (allow_origins (here ∷ []) bridge) ≢ forbidden)
    ↔ ((here ∷ [] ≡ []) ⊎ (mem_text here (here ∷ []) ≡ true))
admit-allow_origins_example = admit-allow_origins bridge here (here ∷ [])

abbrev browser : WebConn
browser = record { next_id = 0; pending = empty }

abbrev world : WebWorld
world = record {
  write_fails = λ _. false;
  await = λ id ch conn. (answered (ws_result id (text "{}")), conn);
}

web_call-returns_example :
    let called = begin_invoke toy world (text "show") [] browser in
    ((written : Text) × (toy.encode (ws_request (web_id 1) (text "show") (or_empty_object []))
        ≡ some written)
      × (called.2 ≡ written ∷ []))
    × (web_id 1 ≡ web_id (add_int64 browser.next_id))
    × (called.1.next_id ≡ add_int64 browser.next_id)
    × (web_id 2 ≢ web_id 1)
    × (view called.1.pending (web_id 1) ≡ some none)
    × ((handle_response (ws_result (web_id 1) (text "{}")) called.1).pending.buffers 0
        ≡ some (ws_result (web_id 1) (text "{}")))
    × (outcome_of toy world (answered (ws_result (web_id 1) (text "{}"))) ≡ result (text "{}"))
unfolding begin_invoke write_call register empty add_int64
web_call-returns_example =
    web_call-returns toy world (text "show") [] (web_id 1) 0 2 browser
      (ws_result (web_id 1) (text "{}")) empty-IsValid refl refl refl refl (omega arith)
      (λ e. omega (arith, e))

abbrev listener : WsListener
listener = record {
  address = text "127.0.0.1:80";
  path = text "/grpc";
  is_tls = false;
  queue = [];
  closed = false;
}

abbrev steps : List WsStep
steps =
    upgrades false (some 1)
    ∷ upgrades false (some 2)
    ∷ upgrades false none
    ∷ accepts false
    ∷ closes
    ∷ upgrades true (some 3)
    ∷ accepts true
    ∷ []

ws_run-fifo_example :
    let r = ws_run steps listener in
    (delivered_in r.0 ++ r.1.queue ≡ queued_in r.0)
    × (length r.1.queue ≤ ws_queue_limit)
    × (listener.closed ≡ true → r.1.closed ≡ true)
ws_run-fifo_example = ws_run-fifo steps listener (omega arith)

abbrev host : Host
host = record {
  parse_url = λ _. inl (plain []);
  port_error = λ _. none;
  listen = λ network address. inr 3;
  bound = λ _. text "127.0.0.1:80";
  remove_error = λ _. none;
  getenv = λ _. [];
  pipes = 0;
  quote = λ t. t;
}

abbrev tcp_uri : Text
tcp_uri = text "tcp://:9090"
