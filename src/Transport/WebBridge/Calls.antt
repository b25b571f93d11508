-- ===== src/Transport/WebBridge/Calls.antt =====
-- Calls of a browser: `WebConn.Invoke` and `WebConn.handleResponse` of pkg/transport/wsweb.go.
use go_holons.Common.{
  ℕ, ◌<◌, ◌^◌, ◌≡◌, ◌≢◌, refl, sym, ap, ◌∙◌, Option, none, some, List, [], ◌∷◌, arith, if-cases,
  subst,
}
use go_holons.Common.Int.{add_int64, format_int64-injective}
use go_holons.Common.Text.{append-cancel, Text, text, text_eq, text_eq_refl, text_eq_iff}
use go_holons.Common.Map.{lookup, lookup-erase}
use go_holons.Holonrpc.Pending.{register, unregister, deliver}
use go_holons.Holonrpc.Pending.Laws.{IsValid, view, registered-answer}
use go_holons.Transport.WebBridge.{
  WsMsg, WebCodec, WebConn, handle_response, version, ws_request, or_empty_object,
}
use go_holons.Transport.WebBridge.Invoke.{
  WebWorld, answered, result, Called, waiting, web_id, forget_call, begin_invoke, write_call,
  finish_invoke, take_answer, outcome_of,
}

-- Whichever way a call of a browser ends, and whatever the other goroutines did to the pending calls
-- while it waited, its identifier is not among them afterwards.
pub web_call-forgets :
    (c : WebCodec) (w : WebWorld) (id : Text) (ch : ℕ) (conn : WebConn)
    → lookup id (finish_invoke c w (waiting id ch) conn).1.pending.table ≡ none
unfolding finish_invoke forget_call unregister
web_call-forgets c w id ch conn =
    let conn' = take_answer c w ch (w.await id ch conn).0 (w.await id ch conn).1 in
    ground (arith, lookup-erase id id conn'.pending.table, text_eq_refl id)

-- A call that waits was written, once.
record IsWritten (o : Option Text) (id' id : Text) (ch' ch : ℕ) (conn : WebConn)
    (r : Called × WebConn × List Text) : Type 0 where
  pub same_id : id' ≡ id
  pub same_channel : ch' ≡ ch
  pub left : r.1 ≡ conn
  pub payload : Text
  pub encoded : o ≡ some payload
  pub sent : r.2 ≡ payload ∷ []

write_call-IsWritten :
    (c : WebCodec) (w : WebWorld) (id' id : Text) (ch' ch : ℕ) (o : Option Text) (conn : WebConn)
    → (write_call c w id' ch' o conn).0 ≡ waiting id ch
    → IsWritten o id' id ch' ch conn (write_call c w id' ch' o conn)
unfolding write_call
write_call-IsWritten c w id' id ch' ch none conn e = cc
write_call-IsWritten c w id' id ch' ch (some payload) conn e = record {
  same_id = ground arith;
  same_channel = ground arith;
  left = ground arith;
  payload = payload;
  encoded = refl;
  sent = ground arith;
}

handle_response-buffers :
    (m : WsMsg) (conn : WebConn) (id : Text) (ch : ℕ)
    → m.id ≡ id
    → m.jsonrpc ≡ version
    → (deliver id m conn.pending).buffers ch ≡ some m
    → (handle_response m conn).pending.buffers ch ≡ some m
unfolding handle_response
handle_response-buffers m conn id ch same_id same_version e =
    if-cases (λ (x : WsMsg). (deliver m.id x conn.pending).buffers ch ≡ some m)
      (text_eq m.jsonrpc version) _ _
      (λ _. subst (λ k. (deliver k m conn.pending).buffers ch ≡ some m) (sym same_id) e)
      (λ other. cc (other, (text_eq_iff m.jsonrpc version).1 same_version))

web_id-injective : (a b : ℕ) → a < 2 ^ 64 → b < 2 ^ 64 → web_id a ≡ web_id b → a ≡ b
web_id-injective a b ha hb e = format_int64-injective a b ha hb (append-cancel (text "s") _ _ e)

-- A call that waits has written one request, under the identifier of its counter, which no other
-- counter has; it waits under that identifier; and a response of the browser with it, the version
-- "2.0" and no error is in the channel of the call, and ends it with the result of the response.
pub web_call-returns :
    (c : WebCodec) (w : WebWorld) (method payload id : Text) (ch other : ℕ) (conn : WebConn)
    (m : WsMsg)
    → IsValid conn.pending
    → (begin_invoke c w method payload conn).0 ≡ waiting id ch
    → m.id ≡ id
    → m.jsonrpc ≡ version
    → m.error ≡ none
    → other < 2 ^ 64
    → other ≢ add_int64 conn.next_id
    → let called = begin_invoke c w method payload conn in
      ((written : Text) × (c.encode (ws_request id method (or_empty_object payload)) ≡ some written)
        × (called.2 ≡ written ∷ []))
      × (id ≡ web_id (add_int64 conn.next_id))
      × (called.1.next_id ≡ add_int64 conn.next_id)
      × (web_id other ≢ id)
      × (view called.1.pending id ≡ some none)
      × ((handle_response m called.1).pending.buffers ch ≡ some m)
      × (outcome_of c w (answered m) ≡ result m.result)
unfolding begin_invoke outcome_of add_int64
web_call-returns c w method payload id ch other conn m v waits same_id same_version no_error small
      differ =
    let n = add_int64 conn.next_id in
    let request = ws_request (web_id n) method (or_empty_object payload) in
    let new : WebConn = record { next_id = n; pending = (register (web_id n) conn.pending).1 } in
    let at =
      write_call-IsWritten c w (web_id n) id (register (web_id n) conn.pending).0 ch
        (c.encode request) new waits in
    let (waits_there, answers) = registered-answer (web_id n) conn.pending m v in
    (
      (at.payload, rw (← at.same_id) at.encoded, at.sent),
      sym at.same_id,
      ap (λ x. x.next_id) at.left,
      λ e. differ (web_id-injective other n small (omega arith) (e ∙ sym at.same_id)),
      rw (at.left, ← at.same_id) waits_there,
      rw at.left (
          handle_response-buffers m new id ch same_id same_version
            (rw (← at.same_id, ← at.same_channel) answers)),
      rw no_error refl,
    )
