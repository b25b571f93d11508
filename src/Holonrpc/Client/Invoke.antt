-- ===== src/Holonrpc/Client/Invoke.antt =====
-- `Client.Invoke` of pkg/holonrpc/client.go, cut where it waits: `begin_invoke` runs up to the
-- `select`, `finish_invoke` from there on.
use go_holons.Common.{ℕ, Option, none, some, List, [], ◌∷◌, ◌++◌, if◌then◌else◌}
use go_holons.Common.Int.{add_int64, int64, format_int}
use go_holons.Common.Text.{Text, text, is_empty, trim_space}
use go_holons.Holonrpc.Value.{Object}
use go_holons.Holonrpc.Message.{
  Codec, RpcMessage, Error, response, plain, wrapped, error_connection_closed, make_id,
  marshal_object, marshal_message, request_message, decode_result,
}
use go_holons.Holonrpc.Pending.{register, unregister, receive}
use go_holons.Holonrpc.Server.State.{
  Frame, Reply, returns, fails, Wake, answered, context_done, peer_done, Called, refused, waiting,
}
use go_holons.Holonrpc.Server.Send.{encoding_failed}
use go_holons.Holonrpc.Server.Invoke.{key_of}
use go_holons.Holonrpc.Client.Connection.{Client, current_conn}

-- What the client does not decide: the error of a write, if it fails; and what the other
-- goroutines do while a call waits, with how it wakes.
pub record World : Type 0 where
  pub write_error : ℕ → Text → Option Error
  pub await : ℕ → Text → ℕ → Client → Wake × Client

-- A call that is refused, or waits on a channel of the connection, with the frames it sent.
abbrev pub Begun : Type 0
Begun = Called × Client × List Frame

-- the deferred `delete(c.pending, key)`
unfoldable pub forget_call : Text → Client → Client
forget_call key s = record s { pending = unregister key s.pending }

abbrev pub client_id : ℕ → Text
client_id n = text "c" ++ format_int (int64 n)

module _ (c : Codec) (w : World) where
  -- the outcome of `write`
  unfoldable pub written : ℕ → Text → ℕ → Option Error → Client → Called × Client
  unfolding forget_call
  written ws key ch none s = (waiting ws key ch, s)
  written ws key ch (some e) s =
      (refused (wrapped (text "holon-rpc: write failed: ") e), forget_call key s)

  -- from `marshalMessage` on
  unfoldable pub write_request : ℕ → Text → ℕ → RpcMessage → Option Text → Client → Begun
  unfolding written forget_call
  write_request ws key ch req none s = (
    refused (wrapped (text "holon-rpc: marshal request: ") encoding_failed),
    forget_call key s,
    [],
  )
  write_request ws key ch req (some payload) s =
      let (called, s') = written ws key ch (w.write_error ws payload) s in
      (called, s', record { to = ws; message = req; payload = payload } ∷ [])

  -- from `marshalObject` on
  unfoldable pub marshal_request : ℕ → Text → Text → Text → ℕ → Option Text → Client → Begun
  unfolding write_request forget_call
  marshal_request ws id key method ch none s = (
    refused (wrapped (text "holon-rpc: marshal params: ") encoding_failed),
    forget_call key s,
    [],
  )
  marshal_request ws id key method ch (some params) s =
      let req = request_message id method params in
      write_request ws key ch req (marshal_message c req) s

  -- from the counter on
  unfoldable pub call : ℕ → Text → Option Object → Client → Begun
  unfolding marshal_request
  call ws method params s =
      let n = add_int64 s.next_client_id in
      let id = make_id c (client_id n) in
      let (ch, pending) = register (key_of id) s.pending in
      marshal_request ws id (key_of id) method ch (marshal_object c params)
        (record s { next_client_id = n; pending = pending })

  abbrev pub call_current : Text → Option Object → Option ℕ × Option Error → Client → Begun
  call_current method params (some ws, none) s = call ws method params s
  call_current method params (_, some e) s = (refused e, s, [])
  call_current method params (none, none) s = (refused error_connection_closed, s, [])

  -- `Invoke` up to its `select`
  unfoldable pub begin_invoke : Text → Option Object → Client → Begun
  unfolding call
  begin_invoke method params s =
      if is_empty (trim_space method)
      then (refused (plain (text "holon-rpc: method is required")), s, [])
      else call_current method params (current_conn c s) s

  abbrev pub decoded : Option Object → Reply
  decoded none = fails (wrapped (text "holon-rpc: invalid result: ") encoding_failed)
  decoded (some out) = returns (some out)

  -- the branch of the `select` that was taken
  unfoldable pub reply_of : Wake → Reply
  reply_of (answered m) = elim m.error [
    | some e ↦ fails (response e)
    | none ↦ decoded (decode_result c m.result)
  ]
  reply_of (context_done e) = fails e
  reply_of peer_done = fails error_connection_closed

  unfoldable pub take_answer : ℕ → Wake → Client → Client
  take_answer ch (answered m) s = record s { pending = (receive ch s.pending).1 }
  take_answer ch _ s = s

  -- `Invoke` from its `select` on, and the deferred deletion
  unfoldable pub finish_invoke : Called → Client → Reply × Client
  unfolding reply_of take_answer forget_call
  finish_invoke (refused e) s = (fails e, s)
  finish_invoke (waiting ws key ch) s =
      let (wake, s') = w.await ws key ch s in
      (reply_of wake, forget_call key (take_answer ch wake s'))

  -- `Invoke`
  unfoldable pub invoke : Text → Option Object → Client → Reply × Client × List Frame
  unfolding begin_invoke finish_invoke
  invoke method params s =
      let (called, s', sent) = begin_invoke method params s in
      let (reply, s'') = finish_invoke called s' in (reply, s'', sent)
