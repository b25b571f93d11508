-- ===== src/Holonrpc/RoundTrip/ClientCall.antt =====
-- The other direction: `Client.Invoke` of pkg/holonrpc/client.go writes a request,
-- `handlePeerRequest` of pkg/holonrpc/server.go answers it, and the answer comes back to
-- `handleResponse`.
use go_holons.Common.{ℕ, ◌≡◌, refl, ap, ◌∙◌, Option, none, some, List, [], ◌∷◌, arith}
use go_holons.Common.Int.{add_int64}
use go_holons.Common.Text.{Text}
use go_holons.Holonrpc.Value.{Object}
use go_holons.Holonrpc.Message.{
  Codec, IsLawful, RpcMessage, id_key, make_id, request_message, result_message, marshal_object,
  marshal_message, Error,
}
use go_holons.Holonrpc.Message.Laws.{id_key-make_id, has_id-make_id, valid-make_id}
use go_holons.Holonrpc.Pending.{Pending, register, deliver}
use go_holons.Holonrpc.Pending.Laws.{IsValid, registered-answer}
use go_holons.Holonrpc.Server.State.{World, Server, Frame, returns, answered, Called, waiting}
use go_holons.Holonrpc.Server.Invoke.{key_of}
use go_holons.Holonrpc.Server.Request.{check_version, handle_peer_request}
use go_holons.Holonrpc.Server.Calls.{key_of-make_id}
use go_holons.Holonrpc.Client.Connection.{Client}
use go_holons.Holonrpc.Client.Request.{handle_response}
use go_holons.Holonrpc.Client.Invoke.{
  reply_of, client_id, call, marshal_request, write_request, written,
}
use go_holons.Holonrpc.Client.Invoke
use go_holons.Holonrpc.RoundTrip.{ComesBack, check_version-current}
use go_holons.Holonrpc.RoundTrip.Handled.{IsHandled, result_sent, handled}

-- A call that was written and waits, and what it sent: one request.
record IsWritten (peer : ℕ) (key0 : Text) (ch0 : ℕ) (req : RpcMessage) (s : Client) (key : Text)
    (ch : ℕ) (r : Called × Client × List Frame) : Type 0 where
  pub same_key : key0 ≡ key
  pub same_channel : ch0 ≡ ch
  pub left : r.1 ≡ s
  pub payload : Text
  pub sent : r.2 ≡ record { to = peer; message = req; payload = payload } ∷ []

written-IsWritten :
    (c : Codec) (w : Invoke.World) (ws : ℕ) (key0 : Text) (ch0 : ℕ) (req : RpcMessage)
    (payload : Text) (o : Option Error) (s : Client) (to : ℕ) (key : Text) (ch : ℕ)
    → (written c w ws key0 ch0 o s).0 ≡ waiting to key ch
    → IsWritten ws key0 ch0 req s key ch (
      (written c w ws key0 ch0 o s).0,
      (written c w ws key0 ch0 o s).1,
      record { to = ws; message = req; payload = payload } ∷ [],
    )
unfolding written
written-IsWritten c w ws key0 ch0 req payload (some x) s to key ch e = cc
written-IsWritten c w ws key0 ch0 req payload none s to key ch e = record {
  same_key = ground arith;
  same_channel = ground arith;
  left = refl;
  payload = payload;
  sent = refl;
}

write_request-IsWritten :
    (c : Codec) (w : Invoke.World) (ws : ℕ) (key0 : Text) (ch0 : ℕ) (req : RpcMessage)
    (o : Option Text) (s : Client) (to : ℕ) (key : Text) (ch : ℕ)
    → (write_request c w ws key0 ch0 req o s).0 ≡ waiting to key ch
    → IsWritten ws key0 ch0 req s key ch (write_request c w ws key0 ch0 req o s)
unfolding write_request
write_request-IsWritten c w ws key0 ch0 req none s to key ch e = cc
write_request-IsWritten c w ws key0 ch0 req (some payload) s to key ch e =
    written-IsWritten c w ws key0 ch0 req payload (w.write_error ws payload) s to key ch e

-- What a call of the server leaves behind where it waits.
record IsCalling (id method params : Text) (ws : ℕ) (s : Client) (key : Text) (ch : ℕ)
    (r : Called × Client × List Frame) : Type 0 where
  pub same_key : key_of id ≡ key
  pub channel : s.pending.next ≡ ch
  pub registered : r.1.pending ≡ (register (key_of id) s.pending).1
  pub payload : Text
  pub sent :
      r.2 ≡ record { to = ws; message = request_message id method params; payload = payload } ∷ []

call-IsCalling :
    (c : Codec) (w : Invoke.World) (method params : Text) (args : Option Object) (ws : ℕ)
    (s : Client) (to : ℕ) (key : Text) (ch : ℕ)
    → marshal_object c args ≡ some params
    → (call c w ws method args s).0 ≡ waiting to key ch
    → IsCalling
        (make_id c (client_id (add_int64 s.next_client_id)))
        method
        params
        ws
        s
        key
        ch
        (call c w ws method args s)
unfolding call marshal_request register
call-IsCalling c w method params args ws s to key ch encoded e =
    let n = add_int64 s.next_client_id in
    let id = make_id c (client_id n) in
    let p = s.pending in
    let new = record s { next_client_id = n; pending = (register (key_of id) p).1 } in
    let req = request_message id method params in
    let written =
      write_request-IsWritten c w ws (key_of id) p.next req (marshal_message c req) new to key ch
        (rw encoded at e) in
    record {
      same_key = written.same_key;
      channel = written.same_channel;
      registered = rw (encoded, written.left) refl;
      payload = written.payload;
      sent = rw encoded written.sent;
    }

-- A call of the client that was answered: the one request that it sent, the one response of the
-- server to that request, which is then in the channel that the call waits on, and what the call
-- makes of it.
pub record IsAnswered (c : Codec) (w : World) (u : Invoke.World) (server : Server) (ws peer ch : ℕ)
    (out : Object) (r : Called × Client × List Frame) : Type 0 where
  pub request : Frame
  pub sent : r.2 ≡ request ∷ []
  pub to_server : request.to ≡ ws
  pub reply : Frame
  pub to_sender : reply.to ≡ peer
  pub replied : (handle_peer_request c w peer request.message server).2 ≡ reply ∷ []
  pub delivered : (handle_response c reply.message r.1).pending.buffers ch ≡ some reply.message
  pub outcome : reply_of c u (answered reply.message) ≡ returns (some out)

reply_of-result :
    (c : Codec) (w : Invoke.World) (id : Text) (out : Object) (b : ComesBack c out)
    → reply_of c w (answered (result_message id b.raw)) ≡ returns (some out)
unfolding reply_of
reply_of-result c w id out b = rw b.read refl

handle_response-pending :
    (c : Codec) (m : RpcMessage) (key : Text) (s : Client)
    → id_key m.id ≡ some key
    → (handle_response c m s).pending ≡ deliver key (check_version m) s.pending
unfolding handle_response
handle_response-pending c m key s e = rw e refl

-- A response under an identifier that was just registered is in the call's channel.
response_arrives :
    (c : Codec) (id raw : Text) (ch : ℕ) (p : Pending RpcMessage) (s : Client)
    → IsLawful c
    → IsValid p
    → p.next ≡ ch
    → s.pending ≡ (register (key_of (make_id c id)) p).1
    → (handle_response c (result_message (make_id c id) raw) s).pending.buffers ch
      ≡ some (result_message (make_id c id) raw)
unfolding register
response_arrives c id raw ch p s law v here registered =
    let m = result_message (make_id c id) raw in
    let k = make_id c id in
    ap (λ q. q.buffers ch) (handle_response-pending c m k s (id_key-make_id c law id))
    ∙ ap (λ q. (deliver k (check_version m) q).buffers ch)
        (registered ∙ ap (λ t. (register t p).1) (key_of-make_id c law id))
    ∙ ap (λ x. (deliver k x (register k p).1).buffers ch) (check_version-current m refl)
    ∙ rw (← here) (registered-answer k p m v).1

-- From end to end in the other direction: a call of a client that waits has sent one request on its
-- connection; a server that handles that request itself answers it with one response to its sender; this response
-- answers the call, and the call returns what the server's handler returned, if the encoder reads
-- back what it wrote for it.
pub client_call-IsAnswered :
    (c : Codec) (w : World) (u : Invoke.World) (method params : Text) (args : Option Object)
    (out : Object) (s : Client) (server : Server) (ws peer to ch : ℕ) (key : Text)
    → IsLawful c
    → marshal_object c args ≡ some params
    → IsHandled c w method params server out
    → ComesBack c out
    → IsValid s.pending
    → (call c u ws method args s).0 ≡ waiting to key ch
    → IsAnswered c w u server ws peer ch out (call c u ws method args s)
client_call-IsAnswered c w u method params args out s server ws peer to ch key law encoded h back v
      waits =
    let n = client_id (add_int64 s.next_client_id) in
    let id = make_id c n in
    let called = call-IsCalling c u method params args ws s to key ch encoded waits in
    let (payload, framed) =
      result_sent c w peer id out (w.interrupt h.route.params server).1 law (has_id-make_id c law n)
        (valid-make_id c law n) back in
    record {
      request = record {
        to = ws;
        message = request_message id method params;
        payload = called.payload;
      };
      sent = called.sent;
      to_server = refl;
      reply = record { to = peer; message = result_message id back.raw; payload = payload };
      to_sender = refl;
      replied = ap (λ r. r.2) (handled c w peer id method params server out h) ∙ framed;
      delivered =
          response_arrives c n back.raw ch s.pending (call c u ws method args s).1 law v
            called.channel called.registered;
      outcome = reply_of-result c u id out back;
    }
