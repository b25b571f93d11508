-- ===== src/Holonrpc/Server/Connection.antt =====
-- `handleWebSocket` of pkg/holonrpc/server.go: one connection, from its upgrade to its end.
pub mod Runs
pub mod Answers
use go_holons.Common.{ℕ, Option, none, some, List, [], ◌∷◌, ◌++◌, not, ◌||◌, is_some, if◌then◌else◌}
use go_holons.Common.Text.{Text, text, is_empty}
use go_holons.Holonrpc.Value.{null}
use go_holons.Holonrpc.Message.{Codec, RpcMessage, Error, classify_decode_error}
use go_holons.Holonrpc.Routing.{invalid_request}
use go_holons.Holonrpc.Reads.{Others, Arrival}
use go_holons.Holonrpc.Server.State.{World, Server, M, Frame, pure, modify, ◌>>=◌, ◌>>◌}
use go_holons.Holonrpc.Server.Send.{send_peer_error, reply_error}
use go_holons.Holonrpc.Server.Request.{handle_peer_response, is_parse_error}
use go_holons.Holonrpc.Server.Lifecycle.{upgrade, detach}

-- How `handleWebSocket` ends: by an HTTP response, by a close with a reason, or by the deferred
-- `CloseNow` of the peer's connection.
pub data Outcome : Type 0 where
  responds : ℕ → Text → Outcome
  refuses : Text → Outcome
  closes_now : ℕ → Outcome

module _ (c : Codec) (w : World) where
  -- One text frame in the loop. The value lists the messages that are given to
  -- `go s.handlePeerRequest`; what that goroutine does is a step of the others.
  unfoldable pub receive_message : ℕ → Text → Option RpcMessage → M (List RpcMessage)
  unfolding ◌>>=◌
  receive_message peer payload none =
      let code = classify_decode_error c payload in
      let message = if is_parse_error code then text "parse error" else text "invalid request" in
      send_peer_error c w peer (text "null")
        (record { code = code; message = message; detail = null })
      >> pure []
  receive_message peer payload (some m) =
      if not (is_empty m.method)
      then pure (m ∷ [])
      else if not (is_empty m.result) || is_some m.error
      then (handle_peer_response peer m >> pure [])
      else (reply_error c w peer m.id (invalid_request (text "invalid request")) >> pure [])

  -- one round of the loop, where the read succeeds
  unfoldable pub read_frame : ℕ → Option Text → M (List RpcMessage)
  unfolding receive_message
  read_frame peer none = pure []
  read_frame peer (some payload) = receive_message peer payload (c.decode_message payload)

  -- the loop, where the read after those frames fails, and the deferred function
  unfoldable pub read_loop : ℕ → List (Arrival Server) → Others Server → M (List RpcMessage)
  unfolding ◌>>=◌ read_frame
  read_loop peer [] last = modify last.act >> modify (detach c peer) >> pure []
  read_loop peer (a ∷ arrivals) last = do
    modify a.others.act
    requests ← read_frame peer a.frame
    rest ← read_loop peer arrivals last
    pure (requests ++ rest)

  -- `handleWebSocket` after the upgrade
  unfoldable pub serve_upgraded :
      List (Arrival Server)
      → Others Server
      → Option ℕ × Server
      → (Outcome × List RpcMessage) × Server × List Frame
  unfolding read_loop
  serve_upgraded arrivals last (none, s) =
      ((refuses (text "missing holon-rpc subprotocol"), []), s, [])
  serve_upgraded arrivals last (some peer, s) =
      let (requests, s', sent) = read_loop peer arrivals last s in
      ((closes_now peer, requests), s', sent)

  -- `handleWebSocket`, given the subprotocol of the upgrade, if that succeeds
  unfoldable pub handle_web_socket :
      Option Text → List (Arrival Server) → Others Server → M (Outcome × List RpcMessage)
  unfolding serve_upgraded
  handle_web_socket none arrivals last s =
      ((responds 400 (text "websocket upgrade failed"), []), s, [])
  handle_web_socket (some protocol) arrivals last s =
      serve_upgraded arrivals last (upgrade (some protocol) s)
