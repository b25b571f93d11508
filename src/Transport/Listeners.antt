-- ===== src/Transport/Listeners.antt =====
-- The listeners of pkg/transport that queue connections: `stdioListener` and `unixListener` of
-- transport.go, `wsListener` of ws.go. A connection is a number.
pub mod Runs
use go_holons.Common.{
  ℕ, suc, Option, none, some, List, [], ◌∷◌, ◌++◌, Bool, true, false, ltb, length, is_some,
  if◌then◌else◌,
}
use go_holons.Common.Text.{Text, text}
use go_holons.Holonrpc.Message.{Error}

-- How an `Accept` ends: with a connection, with `io.EOF`, or not yet.
pub data Accepted : Type 0 where
  connection : ℕ → Accepted
  eof blocked : Accepted

-- `stdioListener`: what `connCh` buffers, and whether `done` and `connCh` were closed.
pub record StdioListener : Type 0 where
  pub buffered : Option ℕ
  pub shut : Bool

-- `newStdioListenerWithIO`, around the one connection
abbrev pub new_stdio_listener : ℕ → StdioListener
new_stdio_listener conn = record { buffered = some conn; shut = false }

-- `stdioListener.shutdown`, which `Close` and the close of the connection call
unfoldable pub stdio_shutdown : StdioListener → StdioListener
stdio_shutdown l = record l { shut = true }

abbrev pub stdio_receive : Option ℕ → StdioListener → Accepted × StdioListener
stdio_receive (some conn) l = (connection conn, record l { buffered = none })
stdio_receive none l = (if l.shut then eof else blocked, l)

-- `stdioListener.Accept`; where both branches of its `select` are ready, `on_done` says which one
-- Go takes.
unfoldable pub stdio_accept : (on_done : Bool) → StdioListener → Accepted × StdioListener
stdio_accept on_done l =
    if l.shut
    then (if on_done then (eof, l) else stdio_receive l.buffered l)
    else stdio_receive l.buffered l

-- `unixListener` and its `once`
pub record UnixListener : Type 0 where
  pub handle : ℕ
  pub path : Text
  pub closed : Bool

-- `unixListener.Close`, given the errors of closing the listener and of removing the file, where
-- an absent file is no error: what it returns, and whether it closed and removed.
unfoldable pub unix_close :
    Option Error → Option Error → UnixListener → Option Error × UnixListener × Bool
unix_close close_error remove_error l = if l.closed then (none, l, false) else (
  elim close_error [ some e ↦ some e | none ↦ remove_error ],
  record l { closed = true },
  true,
)

-- `wsListener`: what `connCh` buffers, oldest first, and whether `done` was closed.
pub record WsListener : Type 0 where
  pub address : Text
  pub path : Text
  pub is_tls : Bool
  pub queue : List ℕ
  pub closed : Bool

-- the buffer of `connCh`
abbrev pub ws_queue_limit : ℕ
ws_queue_limit = 16

-- What the goroutines of a `wsListener` do: an upgrade offers its connection, or waits; or the
-- listener being closed closes the connection. An `Accept` takes the oldest connection, or `io.EOF`,
-- or waits. An upgrade that fails is answered by an HTTP status and text.
pub data WsOutcome : Type 0 where
  queued dropped delivered : ℕ → WsOutcome
  ended waits : WsOutcome
  rejected : ℕ → Text → WsOutcome

-- the `select` of `handleUpgrade`
unfoldable pub ws_upgrade : (on_done : Bool) → ℕ → WsListener → WsOutcome × WsListener
ws_upgrade on_done conn l =
    let offered =
      if ltb (length l.queue) ws_queue_limit
      then (queued conn, record l { queue = l.queue ++ conn ∷ [] })
      else (if l.closed then (dropped conn, l) else (waits, l)) in
    if l.closed then (if on_done then (dropped conn, l) else offered) else offered

-- `wsListener.handleUpgrade`, given the connection, if the upgrade succeeds
unfoldable pub handle_upgrade : (on_done : Bool) → Option ℕ → WsListener → WsOutcome × WsListener
unfolding ws_upgrade
handle_upgrade on_done none l = (rejected 400 (text "websocket upgrade failed"), l)
handle_upgrade on_done (some conn) l = ws_upgrade on_done conn l

abbrev pub ws_receive : List ℕ → WsListener → WsOutcome × WsListener
ws_receive (conn ∷ rest) l = (delivered conn, record l { queue = rest })
ws_receive [] l = (if l.closed then ended else waits, l)

-- `wsListener.Accept`
unfoldable pub ws_accept : (on_done : Bool) → WsListener → WsOutcome × WsListener
ws_accept on_done l =
    if l.closed
    then (if on_done then (ended, l) else ws_receive l.queue l)
    else ws_receive l.queue l

-- `wsListener.Close`
unfoldable pub ws_close : WsListener → WsListener
ws_close l = record l { closed = true }

abbrev pub ws_scheme : Bool → Text
ws_scheme true = text "wss"
ws_scheme false = text "ws"

-- `wsAddr.String` of `wsListener.Addr`
abbrev pub ws_address : WsListener → Text
ws_address l = ws_scheme l.is_tls ++ text "://" ++ l.address ++ l.path
