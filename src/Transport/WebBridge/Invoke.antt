-- ===== src/Transport/WebBridge/Invoke.antt =====
-- `WebConn.Invoke` of pkg/transport/wsweb.go, cut where it waits. `InvokeWithTimeout` is the same with
-- another context.
use go_holons.Common.{ℕ, Option, none, some, List, [], ◌∷◌, ◌++◌, Bool, if◌then◌else◌}
use go_holons.Common.Int.{add_int64, int64, format_int}
use go_holons.Common.Text.{Text, text}
use go_holons.Holonrpc.Pending.{register, unregister, receive}
use go_holons.Transport.WebBridge.{WsErr, WsMsg, WebCodec, WebConn, ws_request, or_empty_object}

-- How the `select` of a call ends.
pub data WebWake : Type 0 where
  answered : WsMsg → WebWake
  context_done connection_done : WebWake

-- The outcomes of a call: a result, the browser's error, an error of the encoder, of the write or
-- of the caller's context, or the end of the connection.
pub data Outcome : Type 0 where
  result : Text → Outcome
  web_error : WsErr → Outcome
  not_encoded not_written canceled connection_closed : Outcome

pub data Called : Type 0 where
  ended : Outcome → Called
  waiting : (id : Text) (ch : ℕ) → Called

-- Whether a write fails; and what other goroutines do while a call waits, and how it wakes.
pub record WebWorld : Type 0 where
  pub write_fails : Text → Bool
  pub await : Text → ℕ → WebConn → WebWake × WebConn

abbrev pub web_id : ℕ → Text
web_id n = text "s" ++ format_int (int64 n)

-- the deferred `c.pending.Delete(id)`
unfoldable pub forget_call : Text → WebConn → WebConn
forget_call id conn = record conn { pending = unregister id conn.pending }

module _ (c : WebCodec) (w : WebWorld) where
  -- `Invoke` from its `json.Marshal` on
  unfoldable pub write_call : Text → ℕ → Option Text → WebConn → Called × WebConn × List Text
  unfolding forget_call
  write_call id ch none conn = (ended not_encoded, forget_call id conn, [])
  write_call id ch (some payload) conn =
      if w.write_fails payload
      then (ended not_written, forget_call id conn, payload ∷ [])
      else (waiting id ch, conn, payload ∷ [])

  -- `WebConn.Invoke` up to its `select`; a nil payload is the empty text
  unfoldable pub begin_invoke : Text → Text → WebConn → Called × WebConn × List Text
  unfolding write_call
  begin_invoke method payload conn =
      let n = add_int64 conn.next_id in
      let (ch, pending) = register (web_id n) conn.pending in
      write_call (web_id n) ch (c.encode (ws_request (web_id n) method (or_empty_object payload)))
        (record { next_id = n; pending = pending })

  -- the branch of the `select` that was taken
  unfoldable pub outcome_of : WebWake → Outcome
  outcome_of (answered m) = elim m.error [ some e ↦ web_error e | none ↦ result m.result ]
  outcome_of context_done = canceled
  outcome_of connection_done = connection_closed

  unfoldable pub take_answer : ℕ → WebWake → WebConn → WebConn
  take_answer ch (answered m) conn = record conn { pending = (receive ch conn.pending).1 }
  take_answer ch _ conn = conn

  -- `Invoke` from its `select` on, and the deferred deletion
  unfoldable pub finish_invoke : Called → WebConn → Outcome × WebConn
  unfolding outcome_of take_answer forget_call
  finish_invoke (ended o) conn = (o, conn)
  finish_invoke (waiting id ch) conn =
      let (wake, conn') = w.await id ch conn in
      (outcome_of wake, forget_call id (take_answer ch wake conn'))

  -- `Invoke`
  unfoldable pub invoke : Text → Text → WebConn → Outcome × WebConn × List Text
  unfolding begin_invoke finish_invoke
  invoke method payload conn =
      let (called, conn', sent) = begin_invoke method payload conn in
      let (o, conn'') = finish_invoke called conn' in (o, conn'', sent)
