-- ===== src/Holonrpc/RoundTrip.antt =====
-- One call from end to end: `Server.Invoke` of pkg/holonrpc/server.go writes a request,
-- `Client.handleRequest` of pkg/holonrpc/client.go answers it, and the answer comes back to
-- `handlePeerResponse`.
pub mod Handled
pub mod ClientCall
pub mod Relayed
pub mod RelayedErrors
pub mod RelayedBroadcast
use go_holons.Common.{
  ℕ, ◌≡◌, ◌≢◌, refl, ap, ◌∙◌, Option, none, some, List, [], ◌∷◌, true, false, arith, inl, inr,
  if-cases,
}
use go_holons.Common.Int.{add_int64}
use go_holons.Common.Text.{Text, text, text_eq, text_eq_refl, trim_space}
use go_holons.Common.Map.{lookup}
use go_holons.Holonrpc.Value.{Object}
use go_holons.Holonrpc.Message.{
  Codec, IsLawful, RpcMessage, json_rpc_version, has_id, make_id, decode_params, request_message,
  result_message, marshal_object, marshal_message, decode_result,
}
use go_holons.Holonrpc.Message.Laws.{id_key-make_id, has_id-make_id, valid-make_id}
use go_holons.Holonrpc.Pending.{Pending, register, deliver}
use go_holons.Holonrpc.Pending.Laws.{IsValid, registered-answer}
use go_holons.Holonrpc.Server.State.{
  World, Server, Frame, returns, Handler, answered, Called, waiting, ◌>>=◌, update_pending,
}
use go_holons.Holonrpc.Server.Send.{write_peer}
use go_holons.Holonrpc.Server.Invoke.{
  key_of, server_id, next_server_id, register_call, forget_call, write_request, marshal_request,
  call_peer, reply_of,
}
use go_holons.Holonrpc.Server.Request.{handle_peer_response, check_version}
use go_holons.Holonrpc.Server.Calls.{key_of-make_id, delivered_pending}
use go_holons.Holonrpc.Client.Connection.{Client}
use go_holons.Holonrpc.Client.Request.{
  handle_request, answer_handler, reply_result, send_result, send_raw,
}
use go_holons.Holonrpc.Client.Calls.{server_call-handled}

-- An object that the encoder writes, and reads back from what it wrote.
pub record ComesBack (c : Codec) (out : Object) : Type 0 where
  pub raw : Text
  pub written : marshal_object c (some out) ≡ some raw
  pub valid : c.valid raw ≡ true
  pub read : decode_result c raw ≡ some out

-- The client's answer with a result, as one frame.
pub answer-frame :
    (c : Codec) (ws : ℕ) (id : Text) (out : Object)
    → IsLawful c
    → has_id id ≡ true
    → c.valid id ≡ true
    → (b : ComesBack c out)
    → (payload : Text) × (answer_handler c ws id (returns (some out))
        ≡ record { to = ws; message = result_message id b.raw; payload = payload } ∷ [])
unfolding answer_handler reply_result send_result send_raw marshal_message
answer-frame c ws id out law has valid b =
    let (payload, done) =
      law.encodes_message (result_message id b.raw) (inr valid) (inl refl) (inr b.valid) tt in
    (payload, rw (has, send_result, b.written, send_raw, done) refl)

-- A call that was written and waits, and what it sent: one request.
record IsWritten (peer : ℕ) (key0 : Text) (ch0 : ℕ) (req : RpcMessage) (s : Server) (key : Text)
    (ch : ℕ) (r : Called × Server × List Frame) : Type 0 where
  pub same_key : key0 ≡ key
  pub same_channel : ch0 ≡ ch
  pub left : r.1 ≡ s
  pub payload : Text
  pub sent : r.2 ≡ record { to = peer; message = req; payload = payload } ∷ []

write_request-IsWritten :
    (c : Codec) (w : World) (peer : ℕ) (key0 : Text) (ch0 : ℕ) (req : RpcMessage) (o : Option Text)
    (s : Server) (to : ℕ) (key : Text) (ch : ℕ)
    → (write_request c w peer key0 ch0 req o s).0 ≡ waiting to key ch
    → IsWritten peer key0 ch0 req s key ch (write_request c w peer key0 ch0 req o s)
unfolding write_request write_peer forget_call ◌>>=◌
write_request-IsWritten c w peer key0 ch0 req none s to key ch e = cc
write_request-IsWritten c w peer key0 ch0 req (some payload) s to key ch e = record {
  same_key = ground arith;
  same_channel = ground arith;
  left = ground arith;
  payload = payload;
  sent = ground arith;
}

marshal_request-IsWritten :
    (c : Codec) (w : World) (peer : ℕ) (id key0 method : Text) (ch0 : ℕ) (params : Text)
    (s : Server) (to : ℕ) (key : Text) (ch : ℕ)
    → (marshal_request c w peer id key0 method ch0 (some params) s).0 ≡ waiting to key ch
    → IsWritten peer key0 ch0
        (request_message id method params)
        s
        key
        ch
        (marshal_request c w peer id key0 method ch0 (some params) s)
unfolding marshal_request
marshal_request-IsWritten c w peer id key0 method ch0 params s to key ch e =
    let req = request_message id method params in
    write_request-IsWritten c w peer key0 ch0 req (marshal_message c req) s to key ch e

-- What a call of a peer leaves behind where it waits.
pub record IsCalling (id method params : Text) (ptr : ℕ) (s : Server) (key : Text) (ch : ℕ)
    (r : Called × Server × List Frame) : Type 0 where
  pub same_key : key_of id ≡ key
  pub channel : (s.heap ptr).pending.next ≡ ch
  pub registered : (r.1.heap ptr).pending ≡ (register (key_of id) (s.heap ptr).pending).1
  pub payload : Text
  pub sent :
      r.2 ≡ record { to = ptr; message = request_message id method params; payload = payload } ∷ []

pub call_peer-IsCalling :
    (c : Codec) (w : World) (method params : Text) (args : Option Object) (ptr : ℕ) (s : Server)
    (to : ℕ) (key : Text) (ch : ℕ)
    → marshal_object c args ≡ some params
    → (call_peer c w method args ptr s).0 ≡ waiting to key ch
    → IsCalling
        (make_id c (server_id (add_int64 s.next_server_id)))
        method
        params
        ptr
        s
        key
        ch
        (call_peer c w method args ptr s)
unfolding call_peer next_server_id register_call register ◌>>=◌
call_peer-IsCalling c w method params args ptr s to key ch encoded e =
    let n = add_int64 s.next_server_id in
    let id = make_id c (server_id n) in
    let p = (s.heap ptr).pending in
    let new =
      update_pending ptr (λ _. (register (key_of id) p).1) (record s { next_server_id = n }) in
    let written =
      marshal_request-IsWritten c w ptr id (key_of id) method p.next params new to key ch
        (rw encoded at e) in
    record {
      same_key = written.same_key;
      channel = written.same_channel;
      registered = rw (encoded, written.left) (ground arith);
      payload = written.payload;
      sent = rw encoded written.sent;
    }

-- A call that was answered: the one request that it sent to its peer, the one response of the client to that
-- request, which is then in the channel that the call waits on, and what the call makes of it.
pub record Returns (c : Codec) (w : World) (client : Client) (ws ptr ch : ℕ) (out : Object)
    (r : Called × Server × List Frame) : Type 0 where
  pub request : Frame
  pub sent : r.2 ≡ request ∷ []
  pub to_peer : request.to ≡ ptr
  pub reply : Frame
  pub to_server : reply.to ≡ ws
  pub replied : handle_request c client ws request.message ≡ reply ∷ []
  pub delivered :
      ((handle_peer_response ptr reply.message r.1).1.heap ptr).pending.buffers ch
      ≡ some reply.message
  pub outcome : reply_of c w (answered reply.message) ≡ returns (some out)

pub reply_of-result :
    (c : Codec) (w : World) (id : Text) (out : Object) (b : ComesBack c out)
    → reply_of c w (answered (result_message id b.raw)) ≡ returns (some out)
unfolding reply_of
reply_of-result c w id out b = rw b.read refl

pub check_version-current : (m : RpcMessage) → m.jsonrpc ≡ json_rpc_version → check_version m ≡ m
check_version-current m e =
    if-cases (λ (x : RpcMessage). x ≡ m) (text_eq m.jsonrpc json_rpc_version) _ _ (λ _. refl)
      (λ other. cc (other, ap (λ t. text_eq t json_rpc_version) e, text_eq_refl json_rpc_version))

-- A response under an identifier that was just registered is in the call's channel.
response_arrives :
    (c : Codec) (id raw : Text) (ptr ch : ℕ) (p : Pending RpcMessage) (s : Server)
    → IsLawful c
    → IsValid p
    → p.next ≡ ch
    → (s.heap ptr).pending ≡ (register (key_of (make_id c id)) p).1
    → ((handle_peer_response ptr (result_message (make_id c id) raw) s).1.heap ptr).pending.buffers
        ch
      ≡ some (result_message (make_id c id) raw)
unfolding register
response_arrives c id raw ptr ch p s law v here registered =
    let m = result_message (make_id c id) raw in
    let k = make_id c id in
    ap (λ q. q.buffers ch) (delivered_pending ptr m k s (id_key-make_id c law id))
    ∙ ap (λ q. (deliver k (check_version m) q).buffers ch)
        (registered ∙ ap (λ t. (register t p).1) (key_of-make_id c law id))
    ∙ ap (λ x. (deliver k x (register k p).1).buffers ch) (check_version-current m refl)
    ∙ rw (← here) (registered-answer k p m v).1

-- From end to end: a call of the server that waits has sent one request; a client with a handler for
-- its trimmed method, which is not the heartbeat, answers that request with one response; this
-- response answers the call, and the call returns what the handler returned, if the encoder reads
-- back what it wrote for it.
pub call-Returns :
    (c : Codec) (w : World) (method params : Text) (args : Option Object) (arguments out : Object)
    (h : Handler) (s : Server) (client : Client) (ws ptr to ch : ℕ) (key : Text)
    → IsLawful c
    → trim_space method ≡ method
    → method ≢ []
    → text_eq method (text "rpc.heartbeat") ≡ false
    → marshal_object c args ≡ some params
    → decode_params c params ≡ some arguments
    → lookup method client.handlers ≡ some h
    → h arguments ≡ returns (some out)
    → ComesBack c out
    → IsValid (s.heap ptr).pending
    → (call_peer c w method args ptr s).0 ≡ waiting to key ch
    → Returns c w client ws ptr ch out (call_peer c w method args ptr s)
call-Returns c w method params args arguments out h s client ws ptr to ch key law trimmed named
      calls encoded readable found gives back v waits =
    let n = add_int64 s.next_server_id in
    let id = make_id c (server_id n) in
    let called = call_peer-IsCalling c w method params args ptr s to key ch encoded waits in
    let (payload, framed) =
      answer-frame c ws id out law (has_id-make_id c law (server_id n))
        (valid-make_id c law (server_id n)) back in
    record {
      request = record {
        to = ptr;
        message = request_message id method params;
        payload = called.payload;
      };
      sent = called.sent;
      to_peer = refl;
      reply = record { to = ws; message = result_message id back.raw; payload = payload };
      to_server = refl;
      replied =
          server_call-handled c client ws n method params arguments h law trimmed named calls
            readable found
          ∙ ap (answer_handler c ws id) gives
          ∙ framed;
      delivered =
          response_arrives c (server_id n) back.raw ptr ch (s.heap ptr).pending
            (call_peer c w method args ptr s).1 law v called.channel called.registered;
      outcome = reply_of-result c w id out back;
    }
