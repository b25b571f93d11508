-- ===== src/Holonrpc/Server/Forgets.antt =====
-- No call leaves its key behind: the deferred `delete(peer.pending, key)` of `Server.Invoke` of
-- pkg/holonrpc/server.go, on each of its ends.
use go_holons.Common.{ℕ, ◌≡◌, Option, none, some, List, [], false, arith}
use go_holons.Common.Int.{add_int64}
use go_holons.Common.Text.{Text, text_eq_refl, is_empty, trim_space}
use go_holons.Common.Map.{lookup, lookup-erase}
use go_holons.Holonrpc.Value.{Object}
use go_holons.Holonrpc.Message.{Codec, RpcMessage, Error, make_id, request_message, marshal_object}
use go_holons.Holonrpc.Pending.{register, unregister}
use go_holons.Holonrpc.Server.State.{
  World, Server, Frame, M, pure, Called, waiting, ◌>>=◌, update_pending,
}
use go_holons.Holonrpc.Server.Send.{write_peer}
use go_holons.Holonrpc.Server.Invoke.{
  key_of, server_id, next_server_id, register_call, forget_call, refuse, take_answer, wait,
  write_request, marshal_request, call_peer, begin_invoke, finish_invoke, invoke,
}

-- The key of a call of the peer is not in its table.
abbrev Forgotten : ℕ → Text → Server → Type 0
Forgotten peer key s = lookup key (s.heap peer).pending.table ≡ none

-- A call that has got that far leaves nothing of its key, however it ends.
abbrev Forgets : Codec → World → ℕ → Text → Called × Server × List Frame → Type 0
Forgets c w peer key r = Forgotten peer key (finish_invoke c w r.0 r.1).1

module _ (c : Codec) (w : World) (peer : ℕ) (key : Text) where
  waiting-Forgets :
      (ch : ℕ) (s : Server) (sent : List Frame)
      → Forgets c w peer key (waiting peer key ch, s, sent)
  unfolding finish_invoke ◌>>=◌ forget_call unregister
  waiting-Forgets ch s sent =
      let s' = (take_answer c w peer ch (wait c w peer key ch s).0 (wait c w peer key ch s).1).1 in
      ground (arith, lookup-erase key key (s'.heap peer).pending.table, text_eq_refl key)

  refuse-Forgets : (e : Error) (s : Server) → Forgets c w peer key (refuse peer key e s)
  unfolding finish_invoke ◌>>=◌ forget_call unregister
  refuse-Forgets e s =
      ground (arith, lookup-erase key key (s.heap peer).pending.table, text_eq_refl key)

  written-Forgets :
      (ch : ℕ) (failed : Option Error) (s : Server)
      → Forgets c w peer key (
          (elim failed as (λ _. M Called) [
            | none ↦ pure (waiting peer key ch)
            | some e ↦ refuse peer key e
          ])
            s)
  written-Forgets ch none s = waiting-Forgets ch s []
  written-Forgets ch (some e) s = refuse-Forgets e s

  write_request-Forgets :
      (ch : ℕ) (req : RpcMessage) (o : Option Text) (s : Server)
      → Forgets c w peer key (write_request c w peer key ch req o s)
  unfolding write_request write_peer ◌>>=◌
  write_request-Forgets ch req none s = refuse-Forgets _ s
  write_request-Forgets ch req (some payload) s =
      written-Forgets ch (write_peer c w peer req payload s).0 s

  marshal_request-Forgets :
      (id method : Text) (ch : ℕ) (o : Option Text) (s : Server)
      → Forgets c w peer key (marshal_request c w peer id key method ch o s)
  unfolding marshal_request
  marshal_request-Forgets id method ch none s = refuse-Forgets _ s
  marshal_request-Forgets id method ch (some params) s =
      write_request-Forgets ch (request_message id method params) _ s

-- Whichever way a call of a connected peer ends - its params or its request cannot be encoded, the
-- write fails, or it wakes from its wait - and whatever the other goroutines did to the peer's pending
-- table while it waited, its own key is not in the table afterwards.
pub invoke-forgets :
    (c : Codec) (w : World) (client_id method : Text) (args : Option Object) (ptr : ℕ) (s : Server)
    → is_empty (trim_space method) ≡ false
    → lookup client_id s.peers ≡ some ptr
    → lookup
        (key_of (make_id c (server_id (add_int64 s.next_server_id))))
        ((invoke c w client_id method args s).1.heap ptr).pending.table
      ≡ none
unfolding invoke begin_invoke call_peer next_server_id register_call ◌>>=◌
invoke-forgets c w client_id method args ptr s named found =
    let n = add_int64 s.next_server_id in
    let id = make_id c (server_id n) in
    let (ch, p) = register (key_of id) (s.heap ptr).pending in
    rw (named, found)
      (marshal_request-Forgets c w ptr (key_of id) id method ch (marshal_object c args)
        (update_pending ptr (λ _. p) (record s { next_server_id = n })))
