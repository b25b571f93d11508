-- ===== src/Transport/Uri.antt =====
-- The transport URIs of pkg/transport: `Listen` and `Scheme` of transport.go and `newWSListener` of
-- ws.go.
pub mod Laws
use go_holons.Common.{
  ℕ, ◌⊎◌, inl, inr, Option, none, some, List, [], ◌∷◌, ◌++◌, Bool, true, false, not, ◌&&◌, ◌||◌,
  if◌then◌else◌,
}
use go_holons.Common.Text.{
  Text, text, text_eq, is_empty, trim_space, has_prefix, trim_prefix, before, to_lower,
}
use go_holons.Holonrpc.Message.{Error, plain, wrapped}
use go_holons.Transport.Listeners.{StdioListener, new_stdio_listener, UnixListener, WsListener}

abbrev pub default_uri : Text
default_uri = text "tcp://:9090"

abbrev pub separator : Text
separator = text "://"

-- `Scheme`
unfoldable pub scheme : Text → Text
scheme uri = elim (before separator uri) [ some s ↦ s | none ↦ uri ]

-- A `*url.URL` as `newWSListener` reads it, with the two parameters of its query.
pub record WsUrl : Type 0 where
  pub scheme : Text
  pub host : Text
  pub path : Text
  pub cert : Text
  pub key : Text

-- What the functions ask of net, net/url, os and fmt: parsing; the error of `SplitHostPort`, if it
-- fails; listening on a network at an address; the address that was bound; removing a file, where an
-- absent one is no error; the environment; the process's own pipes; and the verb `%q`.
pub record Host : Type 0 where
  pub parse_url : Text → Error ⊎ WsUrl
  pub port_error : Text → Option Error
  pub listen : (network address : Text) → Error ⊎ ℕ
  pub bound : ℕ → Text
  pub remove_error : Text → Option Error
  pub getenv : Text → Text
  pub pipes : ℕ
  pub quote : Text → Text

pub data Listener : Type 0 where
  tcp_listener : (handle : ℕ) (address : Text) → Listener
  unix_listener : UnixListener → Listener
  stdio_listener : StdioListener → Listener
  mem_listener : Listener
  ws_listener : WsListener → Listener

pub data Listened : Type 0 where
  listening : Listener → Listened
  failed : Error → Listened

abbrev pub is_stdio : Text → Bool
is_stdio uri = text_eq uri (text "stdio://") || text_eq uri (text "stdio")

abbrev pub or_else : Text → Text → Text
or_else t other = if is_empty t then other else t

abbrev pub certificate_missing : Text
certificate_missing =
    text
      "wss:// requires cert and key (query params cert/key or HOLONS_WSS_CERT_FILE/HOLONS_WSS_KEY_FILE)"

-- How `Serve` or `ServeTLS` of a WebSocket listener's HTTP server ends: whether by
-- `http.ErrServerClosed`, and the text of the error.
pub record Stopped : Type 0 where
  pub server_closed : Bool
  pub message : Text

-- the goroutine of `newWSListener`: what it prints to standard output
abbrev pub ws_served : Option Stopped → List Text
ws_served none = []
ws_served (some e) = if e.server_closed then [] else (text "ws server error: " ++ e.message) ∷ []

module _ (h : Host) where
  abbrev pub tcp_bound : Text → Error ⊎ ℕ → Listened
  tcp_bound address (inl e) = failed e
  tcp_bound address (inr handle) = listening (tcp_listener handle address)

  abbrev pub unix_bound : Text → Error ⊎ ℕ → Listened
  unix_bound path (inl e) = failed e
  unix_bound path (inr handle) =
      listening (unix_listener (record { handle = handle; path = path; closed = false }))

  -- the branch `unix://` after the stale file has been removed, or not
  abbrev pub unix_removed : Text → Option Error → Listened
  unix_removed path (some e) =
      failed (wrapped (text "remove stale unix socket " ++ h.quote path ++ text ": ") e)
  unix_removed path none = unix_bound path (h.listen (text "unix") path)

  -- the branch `unix://` of `Listen`
  unfoldable pub listen_unix : Text → Text → Listened
  listen_unix uri path =
      if is_empty (trim_space path)
      then failed
          (plain (text "unix transport URI " ++ h.quote uri ++ text " is missing socket path"))
      else unix_removed path (h.remove_error path)

  abbrev pub ws_bound : Bool → Text → Text → Error ⊎ ℕ → Listened
  ws_bound is_tls address path (inl e) =
      failed (wrapped (text "ws listen " ++ address ++ text ": ") e)
  ws_bound is_tls address path (inr handle) = listening (
      ws_listener (record {
        address = h.bound handle;
        path = path;
        is_tls = is_tls;
        queue = [];
        closed = false;
      }))

  -- `newWSListener` after the checks on the URL's host
  unfoldable pub listen_ws_at : Bool → WsUrl → Listened
  listen_ws_at is_tls u =
      let path = or_else u.path (text "/grpc") in
      let cert = or_else u.cert (h.getenv (text "HOLONS_WSS_CERT_FILE")) in
      let key = or_else u.key (h.getenv (text "HOLONS_WSS_KEY_FILE")) in
      if is_tls && (is_empty cert || is_empty key)
      then failed (plain certificate_missing)
      else ws_bound is_tls u.host path (h.listen (text "tcp") u.host)

  -- after `SplitHostPort`
  abbrev pub split_ws_host : Bool → WsUrl → Option Error → Listened
  split_ws_host is_tls u (some e) =
      failed (wrapped (text "invalid websocket host:port " ++ h.quote u.host ++ text ": ") e)
  split_ws_host is_tls u none = listen_ws_at is_tls u

  unfoldable pub listen_ws_url : Text → Error ⊎ WsUrl → Listened
  unfolding listen_ws_at
  listen_ws_url uri (inl e) =
      failed (wrapped (text "parse websocket URI " ++ h.quote uri ++ text ": ") e)
  listen_ws_url uri (inr u) =
      let s = to_lower u.scheme in
      let is_tls = text_eq s (text "wss") in
      if not (text_eq s (text "ws")) && not is_tls
      then failed (plain (text "unsupported websocket scheme " ++ h.quote u.scheme))
      else if is_empty (trim_space u.host)
      then failed (plain (text "websocket URI " ++ h.quote uri ++ text " is missing host:port"))
      else split_ws_host is_tls u (h.port_error u.host)

  -- `newWSListener`
  unfoldable pub new_ws_listener : Text → Listened
  unfolding listen_ws_url
  new_ws_listener uri = listen_ws_url uri (h.parse_url uri)

  -- `Listen`
  unfoldable pub listen : Text → Listened
  unfolding listen_unix new_ws_listener
  listen uri =
      if has_prefix uri (text "tcp://")
      then tcp_bound (trim_prefix uri (text "tcp://"))
          (h.listen (text "tcp") (trim_prefix uri (text "tcp://")))
      else if has_prefix uri (text "unix://")
      then listen_unix uri (trim_prefix uri (text "unix://"))
      else if is_stdio uri
      then listening (stdio_listener (new_stdio_listener h.pipes))
      else if has_prefix uri (text "mem://")
      then listening mem_listener
      else if has_prefix uri (text "ws://") || has_prefix uri (text "wss://")
      then new_ws_listener uri
      else failed (
          plain (
            text "unsupported transport URI: "
            ++ h.quote uri
            ++ text " (expected tcp://, unix://, stdio://, mem://, or ws://)"))
