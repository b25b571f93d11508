-- ===== src/Programs/Runs.antt =====
-- Runs of cmd/echo-client as a whole: the arguments that it gives to the server that it launches, its
-- exit codes, and what it leaves behind.
use go_holons.Common.{
  ℕ, ◌*◌, ◌^◌, ◌≤◌, ◌<◌, ◌≡◌, refl, ◌⊎◌, inl, inr, none, List, [], ◌∷◌, ◌++◌, arith,
}
use go_holons.Common.Text.{Text, text, text_eq}
use go_holons.Common.Flags.{Parsed, parsed, exits, parse, read_arg}
use go_holons.Holonrpc.Message.{Error, plain}
use go_holons.Programs.Serve.{parse_flags}
use go_holons.Programs.Echo.{PingResponse, listen_uri}
use go_holons.Programs.Child.{Action, starts, kills, waits}
use go_holons.Programs.EchoServer.{handle_ping, Options, server_flags, parse_args}
use go_holons.Programs.EchoClient
use go_holons.Programs.EchoClient.{
  ClientFlags, Net, Connected, to_network, not_connected, server_args, timeout_of, Verdict,
  on_child, closes_connection, complains, prints, on_all,
}

abbrev pub launched_options : Text → Options
launched_options sdk = record { uri = text "stdio://"; sdk = sdk; version = text "0.3.0" }

-- A server that the echo client launches, by its binary or by `go run`, takes its pipes as its
-- transport and the identifier that the client expects, whatever that text is; a server that
-- `DialStdio` of the gRPC client launches takes its pipes too, with the flags of the echo server as
-- with those of `serve`.
pub launched-stdio :
    (sdk : Text)
    → (parse_args (text "serve" ∷ server_args sdk) ≡ parsed (launched_options sdk) [])
      × (parse_args (server_args sdk) ≡ parsed (launched_options sdk) [])
      × (parse_args (text "serve" ∷ text "--listen" ∷ text "stdio://" ∷ [])
          ≡ parsed (launched_options (text "go-holons")) [])
      × (parse_flags (text "--listen" ∷ text "stdio://" ∷ []) ≡ text "stdio://")
unfolding parse_args parse read_arg server_flags parse_flags listen_uri text text_eq
launched-stdio sdk = (refl, refl, refl, refl)

-- What the server, started with those arguments, answers to a `Ping`; `main` gives its grpc server no
-- interceptor.
abbrev pub answer : Parsed Options → Text → Error ⊎ PingResponse
answer (exits code) message = inl (plain (text "Unavailable"))
answer (parsed o rest) message = handle_ping o.sdk o.version (inr message) none

-- A pass: the verdict, and no child or connection left.
abbrev pub passed : ClientFlags → Net → Text → ℕ × List EchoClient.Did
passed s n response_sdk = (
  0,
  on_child starts
      ∷ prints (record {
        status = text "pass";
        sdk = s.sdk;
        server_sdk = s.server_sdk;
        latency_ms = n.latency;
        response_sdk = response_sdk;
      })
      ∷ on_child kills
      ∷ on_child waits
      ∷ closes_connection
      ∷ [],
)

-- The end of a client with a child, given the answer.
abbrev ChildEnds :
    ClientFlags → Net → List Action → Error ⊎ PingResponse → ℕ × List EchoClient.Did → Type 0
ChildEnds s n done answered r =
    ((out : PingResponse) × (v : Verdict) × (answered ≡ inr out)
      × (out.message ≡ s.message)
      × (v.response_sdk ≡ out.sdk)
      × (r ≡ (
        0,
        on_all done ++ prints v ∷ on_child kills ∷ on_child waits ∷ closes_connection ∷ [],
      )))
    ⊎ ((e : Error) × (r ≡ (1, on_all done ++ complains e ∷ [])))

-- The echo client never runs without a positive timeout that an int64 holds, whatever its flag says;
-- from one millisecond on it is the flag's, as long as the nanoseconds fit.
pub timeout_of-bounds :
    (ms : ℕ)
    → (1 ≤ timeout_of ms)
      × (timeout_of ms < 2 ^ 63)
      × (1 ≤ ms → ms ≤ 9223372036854 → timeout_of ms ≡ ms * 1000000)
unfolding timeout_of
timeout_of-bounds ms = (ground arith, ground arith, λ h g. ground arith)
