-- ===== src/Programs/Echo.antt =====
-- cmd/echo-server/main.go and cmd/echo-client/main.go: the URIs that they print and dial.
use go_holons.Common.{Option, none, some, [], ◌++◌, Bool, ◌||◌, is_some, if◌then◌else◌}
use go_holons.Common.Text.{
  Text, text, text_eq, is_empty, trim_space, has_prefix, trim_prefix, before, to_lower,
}
use go_holons.Transport.Uri.{is_stdio}

-- What they ask of package net: the host and the port of an address.
abbrev pub Splitter : Type 0
Splitter = Text → Option (Text × Text)

-- The requests and responses of `Ping`, and `server` of the server.
pub record PingResponse : Type 0 where
  pub message : Text
  pub sdk : Text
  pub version : Text

-- `server.Ping`
abbrev pub ping : (sdk version : Text) → Text → PingResponse
ping sdk version message = record { message = message; sdk = sdk; version = version }

-- `parseFlags` of the server: `--port`, where it is given, overrides `--listen`.
unfoldable pub listen_uri : (listen port : Text) → Text
listen_uri listen port = if is_empty port then listen else text "tcp://127.0.0.1:" ++ port

-- `isBenignServeError`, given whether it is `grpc.ErrServerStopped`
abbrev pub is_benign : Bool → Text → Bool
is_benign stopped message =
    stopped || is_some (before (text "use of closed network connection") (to_lower message))

abbrev pub host_of : Option (Text × Text) → Text
host_of none = []
host_of (some (host, port)) = host

-- `extractTCPHost`
unfoldable pub extract_tcp_host : Splitter → Text → Text
extract_tcp_host split uri = host_of (split (trim_prefix uri (text "tcp://")))

abbrev pub is_any : Text → Bool
is_any host =
    is_empty host
    || text_eq host (text "0.0.0.0")
    || text_eq host (text "::")
    || text_eq host (text "[::]")

abbrev pub with_port : Text → Text → Option (Text × Text) → Text
with_port host address none = text "tcp://" ++ address
with_port host address (some (_, port)) = text "tcp://" ++ (host ++ (text ":" ++ port))

-- `publicURI`
unfoldable pub public_uri : Splitter → (uri address : Text) → Text
unfolding extract_tcp_host
public_uri split uri address =
    if has_prefix uri (text "tcp://")
    then (let host = extract_tcp_host split uri in
        with_port (if is_any host then text "127.0.0.1" else host) address (split address))
    else uri

-- `normalizeURI` of the client
abbrev pub normalize_uri : Text → Text
normalize_uri uri = if text_eq uri (text "stdio") then text "stdio://" else uri

-- What the client dials: an address, or a socket.
pub data Dialed : Type 0 where
  tcp unix : Text → Dialed
  unsupported : Dialed

-- `normalizeTarget`
unfoldable pub normalize_target : Text → Dialed
normalize_target uri =
    if has_prefix uri (text "tcp://")
    then tcp (trim_prefix uri (text "tcp://"))
    else if has_prefix uri (text "unix://")
    then unix (trim_prefix uri (text "unix://"))
    else unsupported

-- How `dial` goes on: with the server's binary, with `go run`, or over the network.
pub data Dial : Type 0 where
  runs_binary go_runs : Text → Dial
  connects : Dialed → Dial

-- `dial`, with the default of `dialStdioGoRun`
unfoldable pub dial : (uri go_binary stdio_bin : Text) → Dial
unfolding normalize_target
dial uri go_binary stdio_bin =
    if is_stdio uri
    then if is_empty stdio_bin
      then go_runs (if is_empty go_binary then text "go" else go_binary)
      else runs_binary stdio_bin
    else connects (normalize_target uri)

-- `defaultGoBinary`, given `GO_BIN`
abbrev pub default_go_binary : Text → Text
default_go_binary from_env =
    if is_empty (trim_space from_env) then text "go" else trim_space from_env
