-- ===== src/Holonrpc/Client/Calls.antt =====
-- Calls in both directions: what `handleRequest` of pkg/holonrpc/client.go does with a request that
-- `Server.Invoke` of pkg/holonrpc/server.go wrote, and how `Client.Invoke` ends.
use go_holons.Common.{ℕ, ◌≡◌, ◌≢◌, refl, sym, ◌∙◌, none, some, [], ◌∷◌, false, arith}
use go_holons.Common.Text.{Text, text, text_eq, text_eq_refl, text_eq-false, is_empty, trim_space}
use go_holons.Common.Map.{lookup, lookup-erase}
use go_holons.Holonrpc.Value.{Object}
use go_holons.Holonrpc.Message.{
  Codec, IsLawful, RpcMessage, json_rpc_version, id_key, make_id, decode_params, request_message,
}
use go_holons.Holonrpc.Pending.{unregister}
use go_holons.Holonrpc.Pending.Laws.{IsValid, view, view-deliver}
use go_holons.Holonrpc.Server.State.{Handler, waiting}
use go_holons.Holonrpc.Server.Invoke.{server_id}
use go_holons.Holonrpc.Server.Request.{check_version}
use go_holons.Holonrpc.Server.Calls.{server_id_accepted}
use go_holons.Holonrpc.Client.Connection.{Client}
use go_holons.Holonrpc.Client.Request.{
  handle_request, handle_params, run_handler, answer_handler, handle_response,
}
use go_holons.Holonrpc.Client.Invoke.{World, finish_invoke, forget_call, take_answer}

pub is_empty-false : (t : Text) → t ≢ [] → is_empty t ≡ false
is_empty-false [] h = elim (h refl) [ ]
is_empty-false (x ∷ t) h = refl

-- A request that `Server.Invoke` writes, whose method is trimmed, is not the heartbeat and has a
-- handler at the client, and whose params the client can read, is answered with what that handler
-- returns for those params: the client never takes its identifier for a foreign one.
pub server_call-handled :
    (c : Codec) (s : Client) (ws n : ℕ) (method raw : Text) (params : Object) (h : Handler)
    → IsLawful c
    → trim_space method ≡ method
    → method ≢ []
    → text_eq method (text "rpc.heartbeat") ≡ false
    → decode_params c raw ≡ some params
    → lookup method s.handlers ≡ some h
    → handle_request c s ws (request_message (make_id c (server_id n)) method raw)
      ≡ answer_handler c ws (make_id c (server_id n)) (h params)
unfolding handle_request handle_params run_handler
server_call-handled c s ws n method raw params h law trimmed named calls readable found =
    let (has, (sid, decodes, starts)) = server_id_accepted c n law in
    rw
      (
        text_eq_refl json_rpc_version,
        trimmed,
        is_empty-false method named,
        calls,
        has,
        decodes,
        starts,
        readable,
        found,
      )
      refl

-- Whichever way a call of the client ends, and whatever the other goroutines did to its pending
-- table while it waited, its own key is not in the table afterwards.
pub client_call-forgets :
    (c : Codec) (w : World) (ws : ℕ) (key : Text) (ch : ℕ) (s : Client)
    → lookup key (finish_invoke c w (waiting ws key ch) s).1.pending.table ≡ none
unfolding finish_invoke forget_call unregister
client_call-forgets c w ws key ch s =
    let s' = take_answer c w ch (w.await ws key ch s).0 (w.await ws key ch s).1 in
    ground (arith, lookup-erase key key s'.pending.table, text_eq_refl key)

-- A response whose key a call of the client waits under answers that call, with an error in its
-- place if the version is wrong, and no other call.
pub handle_response-answers :
    (c : Codec) (m : RpcMessage) (key : Text) (s : Client)
    → IsValid s.pending
    → id_key m.id ≡ some key
    → view s.pending key ≡ some none
    → let s' = handle_response c m s in
      (view s'.pending key ≡ some (some (check_version m)))
      × ((j : Text) → j ≢ key → view s'.pending j ≡ view s.pending j)
unfolding handle_response
handle_response-answers c m key s v e waits = rw e (
  view-deliver key key (check_version m) s.pending v ∙ ground (arith, text_eq_refl key, waits),
  λ j differ.
      view-deliver key j (check_version m) s.pending v
      ∙ ground (arith, text_eq-false key j (λ k. differ (sym k))),
)
