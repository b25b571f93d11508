-- ===== src/Holonrpc/Server/Lifecycle.antt =====
-- The life of a server and of its peers: `NewServer`, `Start`, `Close`, `Register`, `Unregister`,
-- `WaitForClient`, and the ends of `handleWebSocket`, of pkg/holonrpc/server.go.
use go_holons.Common.{
  ℕ, suc, ◌⊎◌, inl, inr, Option, none, some, List, [], ◌∷◌, ◌++◌, Bool, true, false, not, ltb,
  length, is_some, ◌==◌, if◌then◌else◌,
}
use go_holons.Common.Int.{add_int64, int64, format_int}
use go_holons.Common.Text.{Text, text, text_eq, is_empty}
use go_holons.Common.Map.{Map, insert, erase}
use go_holons.Holonrpc.Message.{Codec, Error, plain, wrapped, error_connection_closed}
use go_holons.Holonrpc.Pending.{empty}
use go_holons.Holonrpc.Server.State.{Server, Handler, update_peer}
use go_holons.Holonrpc.Server.Request.{fail_peer_pending}

-- `NewServer`
unfoldable pub new_server : Text → Server
unfolding empty
new_server bind_url = record {
  address = bind_url;
  path = [];
  server = none;
  listener = none;
  closed = false;
  handlers = [];
  peers = [];
  heap = λ _. record { id = []; canceled = false; pending = empty };
  next_peer = 0;
  connect_q = [];
  next_client_id = 0;
  next_server_id = 0;
}

-- `Address`
unfoldable pub address : Server → Text
address s = s.address

-- `Register`
unfoldable pub register_handler : Text → Handler → Server → Server
register_handler method h s = record s { handlers = insert method h s.handlers }

-- `Unregister`
unfoldable pub unregister_handler : Text → Server → Server
unregister_handler method s = record s { handlers = erase method s.handlers }

unfoldable pub take_event : List Text → Server → Option Text × Server
take_event [] s = (none, s)
take_event (id ∷ rest) s = (some id, record s { connect_q = rest })

-- `WaitForClient`: the oldest event that is queued. `none`: it blocks, until its context ends.
unfoldable pub wait_for_client : Server → Option Text × Server
unfolding take_event
wait_for_client s = take_event s.connect_q s

-- A `*url.URL` as `Start` reads it.
pub record Url : Type 0 where
  pub scheme : Text
  pub hostname : Text
  pub port : Text
  pub escaped_path : Text

-- What `Start` and `Close` ask of net, net/url and net/http: parsing, joining, listening (a handle
-- and the bound address), the error of a shutdown, whether it is `ErrServerClosed`; and what other goroutines do between the two
-- locked sections of `Start` or of `Close`.
pub record Net : Type 0 where
  pub parse_url : Text → Error ⊎ Url
  pub join_host_port : Text → Text → Text
  pub listen : Text → Error ⊎ (ℕ × Text)
  pub shutdown_error : ℕ → Option Error
  pub is_server_closed : Error → Bool
  pub meanwhile : Server → Server

pub data Started : Type 0 where
  started : Text → Started
  failed : Error → Started

abbrev pub server_is_closed : Error
server_is_closed = plain (text "holon-rpc: server is closed")

abbrev pub or_default : Text → Text → Text
or_default t default = if is_empty t then default else t

-- What a step closes: the listener of that handle, the HTTP server on it, the connection of a peer.
pub data Closing : Type 0 where
  closes_listener closes_server closes_peer : ℕ → Closing

-- A step with what it closes.
abbrev pub L : Type 0 → Type 0
L A = Server → A × Server × List Closing

-- the second locked section of `Start`, with a listener at hand
unfoldable pub install : ℕ → Text → Text → L Started
install lis path actual s =
    if s.closed
    then (failed server_is_closed, s, closes_listener lis ∷ closes_server lis ∷ [])
    else if is_some s.server
    then (started s.address, s, closes_listener lis ∷ closes_server lis ∷ [])
    else (
      started actual,
      record s { server = some lis; listener = some lis; path = path; address = actual },
      [],
    )

module _ (c : Codec) (n : Net) where
  unfoldable pub bind : Text → Error ⊎ (ℕ × Text) → L Started
  unfolding install
  bind path (inl e) s = (failed (wrapped (text "holon-rpc: listen failed: ") e), s, [])
  bind path (inr (lis, addr)) s = install lis path (text "ws://" ++ addr ++ path) (n.meanwhile s)

  unfoldable pub listen_at : Error ⊎ Url → L Started
  listen_at (inl e) s = (failed (wrapped (text "holon-rpc: invalid server URL: ") e), s, [])
  listen_at (inr u) s =
      let host = or_default u.hostname (text "127.0.0.1") in
      let port = or_default u.port (text "80") in
      let path = or_default u.escaped_path (text "/rpc") in
      if not (text_eq u.scheme (text "ws"))
      then (
        failed (
            plain (
              text "holon-rpc: unsupported scheme "
              ++ c.quote u.scheme
              ++ text " (expected ws://)")),
        s,
        [],
      )
      else bind path (n.listen (n.join_host_port host port)) s

  -- `Start`
  unfoldable pub start : L Started
  unfolding listen_at bind
  start s =
      if s.closed
      then (failed server_is_closed, s, [])
      else if is_some s.server
      then (started s.address, s, [])
      else listen_at (n.parse_url s.address) s

  abbrev pub close_listener : Option ℕ → List Closing
  close_listener none = []
  close_listener (some lis) = closes_listener lis ∷ []

  -- `_ = peer.ws.Close(…)`, of each peer
  abbrev pub close_peers : Map ℕ → List Closing
  close_peers [] = []
  close_peers ((id, ptr) ∷ m) = closes_peer ptr ∷ close_peers m

  abbrev pub shutdown : Option ℕ → Option Error
  shutdown none = none
  shutdown (some srv) = elim (n.shutdown_error srv) [
    | none ↦ none
    | some e ↦ if n.is_server_closed e then none else some e
  ]

  -- the loop of `Close` over the peers
  unfoldable pub drop_peers : Map ℕ → Server → Server
  unfolding fail_peer_pending
  drop_peers [] s = s
  drop_peers ((id, ptr) ∷ m) s =
      drop_peers m
        (fail_peer_pending c ptr error_connection_closed
          (update_peer ptr (λ p. record p { canceled = true }) s)).1

  -- the first locked section of `Close`
  abbrev pub shut_down : Server → Server
  shut_down s = record s { closed = true; server = none; listener = none }

  -- `Close`; the peers are those that are there after the shutdown.
  unfoldable pub close : L (Option Error)
  unfolding drop_peers
  close s =
      let s' = n.meanwhile (shut_down s) in
      if s.closed then (none, s, []) else (
        shutdown s.server,
        drop_peers s'.peers (record s' { peers = [] }),
        close_listener s.listener ++ close_peers s'.peers,
      )

-- `s.connectQ <- clientID`, which drops the event when 32 are queued
abbrev pub queue_limit : ℕ
queue_limit = 32

unfoldable pub enqueue_event : Text → List Text → List Text
enqueue_event id q = if ltb (length q) queue_limit then q ++ id ∷ [] else q

-- `handleWebSocket` from the counter to the loop: a new peer
unfoldable pub attach : Server → ℕ × Server
unfolding empty enqueue_event
attach s =
    let count = add_int64 s.next_client_id in
    let id = text "c" ++ format_int (int64 count) in
    let ptr = s.next_peer in
    (
      ptr,
      record s {
        next_client_id = count;
        next_peer = suc ptr;
        heap = λ q.
            if ptr == q then record { id = id; canceled = false; pending = empty } else s.heap q;
        peers = insert id ptr s.peers;
        connect_q = enqueue_event id s.connect_q;
      },
    )

-- the first lines of `handleWebSocket`: the subprotocol that the upgrade negotiated, or its error
unfoldable pub upgrade : Option Text → Server → Option ℕ × Server
unfolding attach
upgrade none s = (none, s)
upgrade (some protocol) s =
    let (ptr, s') = attach s in
    if text_eq protocol (text "holon-rpc") then (some ptr, s') else (none, s)

-- The deferred function of `handleWebSocket`. Its two locked sections, of the map of peers and of the
-- pending table, are one step here.
unfoldable pub detach : Codec → ℕ → Server → Server
unfolding fail_peer_pending
detach c ptr s =
    let canceled = update_peer ptr (λ p. record p { canceled = true }) s in
    let removed = record canceled { peers = erase (s.heap ptr).id s.peers } in
    (fail_peer_pending c ptr error_connection_closed removed).1
