-- ===== src/Holonrpc/Server/Send.antt =====
-- Writing to a peer: `writePeer`, `sendPeerError`, `sendPeerResult` of pkg/holonrpc/server.go, and
-- `sendPeerResultAny`, `sendRPCError`, `toResponseError` of pkg/holonrpc/routing.go.
use go_holons.Common.{ℕ, Option, none, some, [], ◌∷◌, if◌then◌else◌}
use go_holons.Common.Int.{pos}
use go_holons.Common.Text.{Text, text}
use go_holons.Holonrpc.Value.{Value, null, object, Object, of_entries}
use go_holons.Holonrpc.Message.{
  Codec, RpcMessage, ResponseError, Error, plain, wrapped, code_internal_error, code_unavailable,
  has_id, error_message, result_message, marshal_message, as_response, is_canceled,
  is_deadline_exceeded, error_text,
}
use go_holons.Holonrpc.Server.State.{World, M, pure, send, ◌>>◌}

-- The error of an encoder that failed; nobody reads more of it.
abbrev pub encoding_failed : Error
encoding_failed = plain (text "json: unsupported value")

abbrev pub internal_error : ResponseError
internal_error = record {
  code = code_internal_error;
  message = text "internal error";
  detail = null;
}

-- `toResponseError`, of an error that is not nil
unfoldable pub to_response_error : Codec → Error → ResponseError
to_response_error c e = elim (as_response e) [
  | some r ↦ r
  | none ↦
      let code =
        if is_canceled e
        then pos 1
        else if is_deadline_exceeded e
        then pos 4
        else code_unavailable in
      record { code = code; message = error_text c e; detail = null }
]

-- A nil map that is passed as an `any` is written as `null`.
abbrev pub any_of_map : Option Object → Value
any_of_map none = null
any_of_map (some m) = object (of_entries m)

module _ (c : Codec) (w : World) where
  -- `writePeer`, of the encoding of `message`
  unfoldable pub write_peer : ℕ → RpcMessage → Text → M (Option Error)
  write_peer peer message payload = do
    send (record { to = peer; message = message; payload = payload } ∷ [])
    pure (elim (w.write_error peer payload) [
      | none ↦ none
      | some e ↦ some (wrapped (text "holon-rpc: write failed: ") e)
    ])

  -- `sendPeerError`
  unfoldable pub send_peer_error : ℕ → Text → ResponseError → M (Option Error)
  send_peer_error peer id e = elim (marshal_message c (error_message id e)) [
    | none ↦ pure (some encoding_failed)
    | some payload ↦ write_peer peer (error_message id e) payload
  ]

  -- `marshalAnyResult`; `none` is a nil interface.
  unfoldable pub marshal_any_result : Option Value → Option Text
  marshal_any_result none = some (text "{}")
  marshal_any_result (some v) = c.encode v

  -- the second half of `sendPeerResultAny`, after `marshalAnyResult`
  unfoldable pub send_peer_raw : ℕ → Text → Option Text → M (Option Error)
  send_peer_raw peer id none = send_peer_error peer id internal_error
  send_peer_raw peer id (some raw) = elim (marshal_message c (result_message id raw)) [
    | none ↦ send_peer_error peer id internal_error
    | some payload ↦ write_peer peer (result_message id raw) payload
  ]

  -- `sendPeerResultAny`
  unfoldable pub send_peer_result_any : ℕ → Text → Option Value → M (Option Error)
  unfolding send_peer_raw
  send_peer_result_any peer id result = send_peer_raw peer id (marshal_any_result result)

  -- `sendPeerResult`: the map becomes an interface that is never nil.
  unfoldable pub send_peer_result : ℕ → Text → Option Object → M (Option Error)
  send_peer_result peer id result = send_peer_result_any peer id (some (any_of_map result))

  -- `if hasID(reqID) { s.sendPeerError(…) }`
  unfoldable pub reply_error : ℕ → Text → ResponseError → M (Option Error)
  reply_error peer id e = if has_id id then send_peer_error peer id e else pure none

  -- `if hasID(reqID) { s.sendPeerResultAny(…) }`
  unfoldable pub reply_result : ℕ → Text → Value → M (Option Error)
  reply_result peer id v = if has_id id then send_peer_result_any peer id (some v) else pure none

  -- `if hasID(reqID) { s.sendRPCError(…) }`
  unfoldable pub reply_rpc_error : ℕ → Text → Error → M (Option Error)
  unfolding reply_error
  reply_rpc_error peer id e = reply_error peer id (to_response_error c e)
