-- ===== src/Programs/EchoServer.antt =====
-- cmd/echo-server/main.go: `main` with its flags, its shutdown and its exit codes. What it prints
-- of a URI is in Echo.
use go_holons.Common.{
  ℕ, ◌⊎◌, inl, inr, Option, none, some, List, [], ◌∷◌, ◌++◌, Bool, true, false, if◌then◌else◌,
}
use go_holons.Common.Text.{Text, text, text_eq}
use go_holons.Common.Flags.{Flags, Parsed, parsed, exits, parse}
use go_holons.Holonrpc.Message.{Error, plain, wrapped}
use go_holons.Transport.Listeners.{ws_address}
use go_holons.Transport.Uri.{
  Host, Listener, tcp_listener, unix_listener, stdio_listener, mem_listener, ws_listener, Listened,
  Stopped, ws_served, listening, failed, listen, is_stdio,
}
use go_holons.Programs.Echo.{PingResponse, ping, Splitter, listen_uri, is_benign, public_uri}

-- `options`
pub record Options : Type 0 where
  pub uri : Text
  pub sdk : Text
  pub version : Text

-- The flags as `flag.Parse` leaves them.
pub record ServerFlags : Type 0 where
  pub listen : Text
  pub port : Text
  pub sdk : Text
  pub version : Text

abbrev pub defaults : ServerFlags
defaults = record {
  listen = text "tcp://127.0.0.1:0";
  port = [];
  sdk = text "go-holons";
  version = text "0.3.0";
}

-- the flags that `parseFlags` defines
unfoldable pub server_flags : Flags ServerFlags
server_flags name =
    if text_eq name (text "listen")
    then some (λ v s. some (record s { listen = v }))
    else if text_eq name (text "port")
    then some (λ v s. some (record s { port = v }))
    else if text_eq name (text "sdk")
    then some (λ v s. some (record s { sdk = v }))
    else if text_eq name (text "version")
    then some (λ v s. some (record s { version = v }))
    else none

abbrev pub options_of : ServerFlags → Options
options_of s = record { uri = listen_uri s.listen s.port; sdk = s.sdk; version = s.version }

-- `main` up to `parseFlags`: the arguments without a first `serve`
abbrev pub without_serve : List Text → List Text
without_serve [] = []
without_serve (arg ∷ args) = if text_eq arg (text "serve") then args else arg ∷ args

abbrev pub options : Parsed ServerFlags → Parsed Options
options (exits code) = exits code
options (parsed s rest) = parsed (options_of s) rest

-- `parseFlags`, on the arguments of the process
unfoldable pub parse_args : List Text → Parsed Options
unfolding server_flags
parse_args args = options (parse server_flags (without_serve args) defaults)

-- The handler of `Ping` in `echoServiceDesc`: the decoded message, or the error of the decoder; and
-- an interceptor, if the grpc server has one.
abbrev pub handle_ping :
    (sdk version : Text)
    → Error ⊎ Text
    → Option ((Text → Error ⊎ PingResponse) → Text → Error ⊎ PingResponse)
    → Error ⊎ PingResponse
handle_ping sdk version (inl e) interceptor = inl e
handle_ping sdk version (inr message) none = inr (ping sdk version message)
handle_ping sdk version (inr message) (some interceptor) =
    interceptor (λ m. inr (ping sdk version m)) message

-- An error of grpc's `Serve`: whether it is `grpc.ErrServerStopped`, and its text.
pub record Failure : Type 0 where
  pub stopped : Bool
  pub message : Text

-- What the process meets: its host, and which branch of the `select` is taken, a signal or the end
-- of `Serve`; whether draining ends within two seconds; the errors of `Serve`; and for a WebSocket
-- listener the end of its HTTP server, and whether that comes before the URI is printed.
pub record Process : Type 0 where
  pub host : Host
  pub split : Splitter
  pub signaled : Bool
  pub drained : Bool
  pub served : Option Failure
  pub gateway : Option Stopped
  pub early : Bool

-- `closes_listener` is the deferred `lis.Close` of `main`; grpc's `Serve` has closed the listener on
-- its own account when it returns.
pub data Did : Type 0 where
  prints : Text → Did
  complains : Error → Did
  stops_gracefully stops closes_listener : Did

-- `lis.Addr().String()`
abbrev pub address_of : Host → Listener → Text
address_of h (tcp_listener handle address) = h.bound handle
address_of h (unix_listener l) = l.path
address_of h (stdio_listener l) = text "stdio://"
address_of h mem_listener = text "mem://"
address_of h (ws_listener l) = ws_address l

-- `shutdown`
abbrev pub shutdown : Bool → List Did
shutdown true = stops_gracefully ∷ []
shutdown false = stops_gracefully ∷ stops ∷ []

-- The end of `main` after `Serve`; `os.Exit` runs no deferred call.
unfoldable pub finish : Option Failure → ℕ × List Did
finish none = (0, closes_listener ∷ [])
finish (some f) =
    if is_benign f.stopped f.message
    then (0, closes_listener ∷ [])
    else (1, complains (wrapped (text "serve failed: ") (plain f.message)) ∷ [])

abbrev pub after : List Did → ℕ × List Did → ℕ × List Did
after first r = (r.0, first ++ r.1)

-- What the goroutine of a WebSocket listener prints.
abbrev pub gateway_lines : Listener → Option Stopped → List Text
gateway_lines (ws_listener l) ended = ws_served ended
gateway_lines (tcp_listener handle address) ended = []
gateway_lines (unix_listener l) ended = []
gateway_lines (stdio_listener l) ended = []
gateway_lines mem_listener ended = []

abbrev pub prints_all : List Text → List Did
prints_all [] = []
prints_all (t ∷ ts) = prints t ∷ prints_all ts

abbrev pub in_order : {A : Type 0} → Bool → List A → List A → List A
in_order true first second = first ++ second
in_order false first second = second ++ first

-- `main` from `Listen` on
unfoldable pub serve : Process → Options → Listened → ℕ × List Did
unfolding finish
serve p o (failed e) = (1, complains (wrapped (text "listen failed: ") e) ∷ [])
serve p o (listening l) =
    let noise = prints_all (gateway_lines l p.gateway) in
    if is_stdio o.uri
    then after noise (finish p.served)
    else (let uri = prints (public_uri p.split o.uri (address_of p.host l)) ∷ [] in
        let shown = in_order p.early noise uri in
        after (if p.signaled then shown ++ shutdown p.drained else shown) (finish p.served))

abbrev pub run : Process → Parsed Options → ℕ × List Did
run p (exits code) = (code, [])
run p (parsed o rest) = serve p o (listen p.host o.uri)

-- `main`
unfoldable pub main : Process → List Text → ℕ × List Did
unfolding parse_args serve
main p args = run p (parse_args args)
