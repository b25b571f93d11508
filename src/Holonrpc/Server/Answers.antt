-- ===== src/Holonrpc/Server/Answers.antt =====
-- The answer to a request: `handlePeerRequest` and the loop of `handleWebSocket` of
-- pkg/holonrpc/server.go, with the routing of pkg/holonrpc/routing.go.
use go_holons.Common.{ℕ, ◌≡◌, refl, ◌⊎◌, inl, inr, Option, none, some, List, [], ◌∷◌, true, false}
use go_holons.Common.Text.{Text}
use go_holons.Holonrpc.Value.{Value}
use go_holons.Holonrpc.Message.{
  Codec, IsLawful, HasEncoding, RpcMessage, ResponseError, has_id, json_rpc_version, error_message,
  result_message, marshal_message,
}
use go_holons.Holonrpc.Server.State.{World, Server, Frame, ◌>>=◌}
use go_holons.Holonrpc.Server.Send.{
  internal_error, write_peer, send_peer_error, marshal_any_result, send_peer_raw,
  send_peer_result_any,
}
use go_holons.Holonrpc.Server.Request.{handle_peer_request}
use go_holons.Holonrpc.Server.Sends.{responses, Ends, by_states}
use go_holons.Holonrpc.Server.Replies.{IsDroppedRequest, handle_peer_request-Holds}

-- One response, to the peer, with the identifier and the version of the protocol.
pub record IsReply (peer : ℕ) (id : Text) (fs : List Frame) : Type 0 where
  pub frame : Frame
  pub only : fs ≡ frame ∷ []
  pub to_caller : frame.to ≡ peer
  pub same_id : frame.message.id ≡ id
  pub version : frame.message.jsonrpc ≡ json_rpc_version

-- A notification gets no response, on any branch: refused, routed or handled.
pub handle_peer_request_notification :
    (c : Codec) (w : World) (peer : ℕ) (m : RpcMessage) (s : Server)
    → has_id m.id ≡ false
    → responses (handle_peer_request c w peer m s).2 ≡ []
handle_peer_request_notification c w peer m s silent =
    handle_peer_request-Holds c w peer m s (λ fs. fs ≡ []) (λ e h. cc) (λ v h. cc) (λ _. refl)
      (λ d. refl)

module _ (c : Codec) (law : IsLawful c) (encodable : (e : ResponseError) → HasEncoding c (some e))
    (w : World) (peer : ℕ) (id : Text) (raw : c.valid id ≡ true) where
  written :
      (m : RpcMessage) (payload : Text)
      → m.method ≡ []
      → m.id ≡ id
      → m.jsonrpc ≡ json_rpc_version
      → Ends (IsReply peer id) (write_peer c w peer m payload)
  unfolding write_peer ◌>>=◌
  written m payload method same version = by_states λ s. record {
    frame = record { to = peer; message = m; payload = payload };
    only = rw method;
    to_caller = refl;
    same_id = same;
    version = version;
  }

  error_written : (e : ResponseError) → Ends (IsReply peer id) (send_peer_error c w peer id e)
  unfolding marshal_message send_peer_error
  error_written e =
      let (payload, done) =
        law.encodes_message (error_message id e) (inr raw) (inl refl) (inl refl) (encodable e) in
      rw (send_peer_error, done) (written (error_message id e) payload refl refl refl)

  raw_written :
      (o : Option Text)
      → ((t : Text) → o ≡ some t → c.valid t ≡ true)
      → Ends (IsReply peer id) (send_peer_raw c w peer id o)
  unfolding marshal_message send_peer_raw
  raw_written none valid = error_written internal_error
  raw_written (some t) valid =
      let (payload, done) =
        law.encodes_message (result_message id t) (inr raw) (inl refl) (inr (valid t refl)) tt in
      rw (send_peer_raw, done) (written (result_message id t) payload refl refl refl)

  result_written : (v : Value) → Ends (IsReply peer id) (send_peer_result_any c w peer id (some v))
  unfolding send_peer_result_any marshal_any_result
  result_written v = raw_written (c.encode v) (law.encodes_valid v)

-- Where the encoder writes every error, a request with an identifier that is valid JSON gets
-- exactly one response, on every branch: it goes to the caller, with the identifier of the request
-- and the version "2.0". The one exception is a request whose handler was cancelled or timed out,
-- or said so: it gets no response.
pub handle_peer_request_answered :
    (c : Codec) (w : World) (peer : ℕ) (m : RpcMessage) (s : Server)
    → IsLawful c
    → ((e : ResponseError) → HasEncoding c (some e))
    → has_id m.id ≡ true
    → c.valid m.id ≡ true
    → IsReply peer m.id (responses (handle_peer_request c w peer m s).2)
      ⊎ ((responses (handle_peer_request c w peer m s).2 ≡ []) × IsDroppedRequest c w m s)
handle_peer_request_answered c w peer m s law encodable has raw =
    handle_peer_request-Holds c w peer m s
      (λ fs. IsReply peer m.id fs ⊎ ((fs ≡ []) × IsDroppedRequest c w m s))
      (λ e h. by_states λ t. inl ((error_written c law encodable w peer m.id raw e).ends t))
      (λ v h. by_states λ t. inl ((result_written c law encodable w peer m.id raw v).ends t))
      (λ h. cc) (λ d. inr (refl, d))
