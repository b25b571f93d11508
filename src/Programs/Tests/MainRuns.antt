-- ===== src/Programs/Tests/MainRuns.antt =====
-- Runs of the echo programs.
use go_holons.Common.{◌≡◌, ◌≤◌, ◌<◌, ◌*◌, ◌^◌, inr, none, some, List, [], ◌∷◌, true, false}
use go_holons.Common.Text.{Text, text}
use go_holons.Transport.Uri.{Listener, ws_listener}
use go_holons.Programs.Echo.{ping}
use go_holons.Programs.EchoServer.{Options, Process}
use go_holons.Programs.EchoClient.{ClientFlags, Shell, Net, timeout_of}
use go_holons.Programs.EchoClient
use go_holons.Programs.Runs.{timeout_of-bounds}
use go_holons.Programs.Tests.{child, split, host}

abbrev shell : Shell
shell = record { getenv = λ _. []; parse_int = λ _. none }

abbrev net : Net
net = record {
  child = λ command. child;
  dial_context = λ target timeout. none;
  invoke = λ message. inr (ping (text "rust-holons") (text "0.3.0") message);
  latency = 3;
  quote = λ t. t;
}

abbrev args : List Text
args = text "--server-sdk" ∷ text "rust-holons" ∷ text "-stdio-bin=/bin/echo" ∷ text "stdio" ∷ []

abbrev flags : ClientFlags
flags = record {
  sdk = text "go-holons";
  server_sdk = text "rust-holons";
  message = text "hello";
  timeout_ms = 5000;
  go_binary = text "go";
  stdio_bin = text "/bin/echo";
}

timeout_of-bounds_example :
    (1 ≤ timeout_of 250)
    × (timeout_of 250 < 2 ^ 63)
    × (1 ≤ 250 → 250 ≤ 9223372036854 → timeout_of 250 ≡ 250 * 1000000)
timeout_of-bounds_example = timeout_of-bounds 250

-- A WebSocket listener whose HTTP server fails at once.
abbrev process : Process
process = record {
  host = host;
  split = split;
  signaled = true;
  drained = false;
  served = none;
  gateway = some (record { server_closed = false; message = text "accept failed" });
  early = true;
}

abbrev ws_options : Options
ws_options = record { uri = text "ws://127.0.0.1:0/grpc"; sdk = []; version = [] }

abbrev at_port : Listener
at_port = ws_listener (record {
  address = text "127.0.0.1:80";
  path = text "/grpc";
  is_tls = false;
  queue = [];
  closed = false;
})
