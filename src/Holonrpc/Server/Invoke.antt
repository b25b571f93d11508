-- ===== src/Holonrpc/Server/Invoke.antt =====
-- `Server.Invoke` of pkg/holonrpc/server.go: a call of a connected client. It is cut where it
-- waits: `begin_invoke` runs up to the `select`, `finish_invoke` from there on.
use go_holons.Common.{ℕ, Option, none, some, [], ◌++◌, if◌then◌else◌}
use go_holons.Common.Int.{add_int64, int64, format_int}
use go_holons.Common.Text.{Text, text, is_empty, trim_space}
use go_holons.Common.Map.{lookup}
use go_holons.Holonrpc.Value.{Object}
use go_holons.Holonrpc.Message.{
  Codec, RpcMessage, Error, response, plain, wrapped, error_connection_closed, make_id, id_key,
  marshal_object, marshal_message, request_message, decode_result,
}
use go_holons.Holonrpc.Pending.{register, unregister, receive}
use go_holons.Holonrpc.Server.State.{
  World, Reply, returns, fails, Wake, answered, context_done, peer_done, Called, refused, waiting,
  M, pure, gets, modify, ◌>>=◌, ◌>>◌, update_pending,
}
use go_holons.Holonrpc.Server.Send.{encoding_failed, write_peer}

-- `key, _ := idKey(idRaw)`
unfoldable pub key_of : Text → Text
key_of raw = elim (id_key raw) [ none ↦ [] | some key ↦ key ]

abbrev pub server_id : ℕ → Text
server_id n = text "s" ++ format_int (int64 n)

-- `atomic.AddInt64(&s.nextServerID, 1)`
unfoldable pub next_server_id : M ℕ
next_server_id s = let n = add_int64 s.next_server_id in (n, record s { next_server_id = n }, [])

-- `peer.pending[key] = ch`
unfoldable pub register_call : ℕ → Text → M ℕ
register_call peer key s =
    let (ch, pending) = register key (s.heap peer).pending in
    (ch, update_pending peer (λ _. pending) s, [])

-- the deferred `delete(peer.pending, key)`
unfoldable pub forget_call : ℕ → Text → M (Unit {0})
forget_call peer key = modify (update_pending peer (unregister key))

abbrev pub refuse : ℕ → Text → Error → M Called
refuse peer key e = do forget_call peer key; pure (refused e)

module _ (c : Codec) (w : World) where
  -- from the write on
  unfoldable pub write_request : ℕ → Text → ℕ → RpcMessage → Option Text → M Called
  write_request peer key ch req none =
      refuse peer key (wrapped (text "holon-rpc: marshal request: ") encoding_failed)
  write_request peer key ch req (some payload) = do
    failed ← write_peer c w peer req payload
    elim failed [ none ↦ pure (waiting peer key ch) | some e ↦ refuse peer key e ]

  -- from `marshalObject` on
  unfoldable pub marshal_request : ℕ → Text → Text → Text → ℕ → Option Text → M Called
  marshal_request peer id key method ch none =
      refuse peer key (wrapped (text "holon-rpc: marshal params: ") encoding_failed)
  marshal_request peer id key method ch (some params) =
      let req = request_message id method params in
      write_request peer key ch req (marshal_message c req)

  unfoldable pub call_peer : Text → Option Object → ℕ → M Called
  call_peer method params peer = do
    n ← next_server_id
    let id = make_id c (server_id n)
    let key = key_of id
    ch ← register_call peer key
    marshal_request peer id key method ch (marshal_object c params)

  abbrev pub call_known : Text → Text → Option Object → Option ℕ → M Called
  call_known client_id method params none =
      pure (refused (plain (text "holon-rpc: unknown client " ++ c.quote client_id)))
  call_known client_id method params (some peer) = call_peer method params peer

  -- `Invoke` up to its `select`
  unfoldable pub begin_invoke : Text → Text → Option Object → M Called
  begin_invoke client_id method params =
      if is_empty (trim_space method)
      then pure (refused (plain (text "holon-rpc: method is required")))
      else do found ← gets (λ s. lookup client_id s.peers); call_known client_id method params found

  abbrev pub decoded : Option Object → Reply
  decoded none = fails (wrapped (text "holon-rpc: invalid result: ") encoding_failed)
  decoded (some out) = returns (some out)

  -- the branch of the `select` that was taken
  unfoldable pub reply_of : Wake → Reply
  reply_of (answered m) = elim m.error [
    | some e ↦ fails (response e)
    | none ↦ decoded (decode_result c m.result)
  ]
  reply_of (context_done e) = fails e
  reply_of peer_done = fails error_connection_closed

  -- `<-ch` empties the buffer if it is the branch that was taken.
  unfoldable pub take_answer : ℕ → ℕ → Wake → M (Unit {0})
  take_answer peer ch (answered m) = modify (update_pending peer (λ p. (receive ch p).1))
  take_answer peer ch _ = pure tt

  unfoldable pub wait : ℕ → Text → ℕ → M Wake
  wait peer key ch s = let (wake, s') = w.await peer key ch s in (wake, s', [])

  -- `Invoke` from its `select` on, and the deferred deletion
  unfoldable pub finish_invoke : Called → M Reply
  finish_invoke (refused e) = pure (fails e)
  finish_invoke (waiting peer key ch) = do
    wake ← wait peer key ch
    take_answer peer ch wake
    forget_call peer key
    pure (reply_of wake)

  -- `Invoke`
  unfoldable pub invoke : Text → Text → Option Object → M Reply
  invoke client_id method params = do
    called ← begin_invoke client_id method params
    finish_invoke called
