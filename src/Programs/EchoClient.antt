-- ===== src/Programs/EchoClient.antt =====
-- cmd/echo-client/main.go: `main` with its flags, what it dials, the child that it launches, its
-- verdict on the answer and its exit codes.
use go_holons.Common.{
  ℕ, ◌*◌, ◌%◌, ◌^◌, ◌⊎◌, inl, inr, Option, none, some, List, [], ◌∷◌, ◌++◌, ◌||◌, ◌==◌, leb,
  if◌then◌else◌,
}
use go_holons.Common.Text.{Text, text, text_eq, trim_space}
use go_holons.Common.Flags.{Flags, Parsed, parsed, exits, parse}
use go_holons.Holonrpc.Message.{Error, plain, wrapped}
use go_holons.Programs.Echo.{
  PingResponse, Dialed, unsupported, normalize_uri, Dial, runs_binary, go_runs, connects, dial,
  default_go_binary,
}
use go_holons.Programs.Child
use go_holons.Programs.Child.{Child, Launched, connected, failed, Action, dial_stdio_command}

pub record ClientFlags : Type 0 where
  pub sdk : Text
  pub server_sdk : Text
  pub message : Text
  pub timeout_ms : ℕ
  pub go_binary : Text
  pub stdio_bin : Text

-- What the program asks of os and strconv: the environment; the value of an integer flag, as the
-- 64 bits of an int.
pub record Shell : Type 0 where
  pub getenv : Text → Text
  pub parse_int : Text → Option ℕ

abbrev pub defaults : Shell → ClientFlags
defaults h = record {
  sdk = text "go-holons";
  server_sdk = text "unknown";
  message = text "hello";
  timeout_ms = 5000;
  go_binary = default_go_binary (h.getenv (text "GO_BIN"));
  stdio_bin = trim_space (h.getenv (text "HOLONS_ECHO_SERVER_BIN"));
}

abbrev pub with_timeout : ClientFlags → Option ℕ → Option ClientFlags
with_timeout s none = none
with_timeout s (some ms) = some (record s { timeout_ms = ms })

-- the flags of `main`
unfoldable pub client_flags : Shell → Flags ClientFlags
client_flags h name =
    if text_eq name (text "sdk")
    then some (λ v s. some (record s { sdk = v }))
    else if text_eq name (text "server-sdk")
    then some (λ v s. some (record s { server_sdk = v }))
    else if text_eq name (text "message")
    then some (λ v s. some (record s { message = v }))
    else if text_eq name (text "timeout-ms")
    then some (λ v s. with_timeout s (h.parse_int v))
    else if text_eq name (text "go")
    then some (λ v s. some (record s { go_binary = v }))
    else if text_eq name (text "stdio-bin")
    then some (λ v s. some (record s { stdio_bin = v }))
    else none

-- The timeout in nanoseconds, of the 64 bits of the flag: the product wraps around, and five seconds
-- stand in for what is not positive.
unfoldable pub timeout_of : ℕ → ℕ
timeout_of ms =
    let product = (ms * 1000000) % 2 ^ 64 in
    if product == 0 || leb (2 ^ 63) product then 5000000000 else product

-- the arguments that both command lines give to the server
abbrev pub server_args : (sdk : Text) → List Text
server_args sdk = text "--listen" ∷ text "stdio://" ∷ text "--sdk" ∷ sdk ∷ []

-- the command line of `dialStdioBinary`
abbrev pub binary_command : (path sdk : Text) → List Text
binary_command path sdk = path ∷ text "serve" ∷ server_args sdk

-- the command line of `dialStdioGoRun`; what follows the package goes to the program
abbrev pub go_run_command : (go sdk : Text) → List Text
go_run_command go sdk = go ∷ text "run" ∷ text "./cmd/echo-server" ∷ server_args sdk

-- What the program meets: the child that a command line starts; grpc's blocking dial to a target,
-- within a timeout; the call of `Ping` on the connection, with an error or a response; the clock; and
-- the verb `%q`.
pub record Net : Type 0 where
  pub child : List Text → Child
  pub dial_context : Dialed → ℕ → Option Error
  pub invoke : Text → Error ⊎ PingResponse
  pub latency : ℕ
  pub quote : Text → Text

-- The connection, and whether it comes with a child to stop.
pub data Connected : Type 0 where
  to_network to_child : Connected
  not_connected : Error → Connected

abbrev pub to_launched : Launched × List Action → Connected × List Action
to_launched (connected reader, done) = (to_child, done)
to_launched (failed e, done) = (not_connected e, done)

abbrev pub to_target : Option Error → Connected × List Action
to_target none = (to_network, [])
to_target (some e) = (not_connected e, [])

-- `dial`
unfoldable pub connect : Net → (sdk uri : Text) → ℕ → Dial → Connected × List Action
connect n sdk uri timeout (runs_binary path) =
    to_launched (dial_stdio_command (n.child (binary_command path sdk)))
connect n sdk uri timeout (go_runs go) =
    to_launched (dial_stdio_command (n.child (go_run_command go sdk)))
connect n sdk uri timeout (connects unsupported) =
    (not_connected (plain (text "unsupported URI: " ++ uri)), [])
connect n sdk uri timeout (connects target) = to_target (n.dial_context target timeout)

-- What `main` prints of a success.
pub record Verdict : Type 0 where
  pub status : Text
  pub sdk : Text
  pub server_sdk : Text
  pub latency_ms : ℕ
  pub response_sdk : Text

pub data Did : Type 0 where
  prints : Verdict → Did
  complains : Error → Did
  on_child : Action → Did
  closes_connection : Did

abbrev pub on_all : List Action → List Did
on_all [] = []
on_all (a ∷ actions) = on_child a ∷ on_all actions

-- `stopChild`
abbrev pub stop_child : Connected → List Action
stop_child to_child = Child.kill_and_wait
stop_child _ = []

-- `main` after `Invoke`; the deferred calls run in reverse order, and `os.Exit` runs none of them.
unfoldable pub judge : ClientFlags → Net → Connected → Error ⊎ PingResponse → ℕ × List Did
judge s n c (inl e) = (1, complains (wrapped (text "invoke failed: ") e) ∷ [])
judge s n c (inr out) =
    if text_eq out.message s.message
    then (
      0,
      prints (record {
        status = text "pass";
        sdk = s.sdk;
        server_sdk = s.server_sdk;
        latency_ms = n.latency;
        response_sdk = out.sdk;
      })
            ∷ on_all (stop_child c)
          ++ closes_connection ∷ [],
    )
    else (
      1,
      complains (wrapped (text "unexpected echo message: ") (plain (n.quote out.message))) ∷ [],
    )

abbrev pub after : List Did → ℕ × List Did → ℕ × List Did
after first r = (r.0, first ++ r.1)

-- `main` after `dial`
unfoldable pub ask : ClientFlags → Net → Connected × List Action → ℕ × List Did
unfolding judge
ask s n (not_connected e, done) =
    (1, on_all done ++ complains (wrapped (text "dial failed: ") e) ∷ [])
ask s n (to_network, done) = after (on_all done) (judge s n to_network (n.invoke s.message))
ask s n (to_child, done) = after (on_all done) (judge s n to_child (n.invoke s.message))

abbrev pub usage : Error
usage = plain (
    text
      "usage: go run ./cmd/echo-client [--sdk name] [--server-sdk name] [--message hello] [--go go] [--stdio-bin /path/to/echo-server] [tcp://host:port|unix://path|stdio://]")

-- `main` after `flag.Parse`
unfoldable pub run : Net → Parsed ClientFlags → ℕ × List Did
unfolding ask connect timeout_of
run n (exits code) = (code, [])
run n (parsed s []) = (2, complains usage ∷ [])
run n (parsed s (uri ∷ more)) = ask s n (
    connect n s.server_sdk (normalize_uri uri) (timeout_of s.timeout_ms)
      (dial (normalize_uri uri) (trim_space s.go_binary) (trim_space s.stdio_bin)))

-- `main`, on the arguments of the process
unfoldable pub main : Shell → Net → List Text → ℕ × List Did
unfolding run client_flags
main h n args = run n (parse (client_flags h) args (defaults h))
