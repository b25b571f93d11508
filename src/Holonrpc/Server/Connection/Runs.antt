-- ===== src/Holonrpc/Server/Connection/Runs.antt =====
-- What the loop of `handleWebSocket` of pkg/holonrpc/server.go does to its peer, and which requests
-- it gives to goroutines.
use go_holons.Common.{
  ℕ, ◌≡◌, refl, sym, ap, ◌∙◌, Option, none, some, List, [], ◌∷◌, ◌++◌, arith, All, if◌then◌else◌,
}
use go_holons.Common.Text.{Text, text, is_empty, text_eq_refl}
use go_holons.Common.Map.{lookup, lookup-erase}
use go_holons.Holonrpc.Message.{Codec, RpcMessage, ResponseError, id_key, error_connection_closed}
use go_holons.Holonrpc.Pending.{fail_all}
use go_holons.Holonrpc.Pending.Steps.{fails, run}
use go_holons.Holonrpc.Routing.{invalid_request}
use go_holons.Holonrpc.Reads.{Others, Arrival}
use go_holons.Holonrpc.Reads.History.{answers, heard_message, heard, history, run-append}
use go_holons.Holonrpc.Server.State.{World, Server, ◌>>=◌}
use go_holons.Holonrpc.Server.Send.{send_peer_error, write_peer, reply_error}
use go_holons.Holonrpc.Server.Request.{
  closed_message, handle_peer_response, deliver_keyed, fail_peer_pending,
}
use go_holons.Holonrpc.Server.Lifecycle.{detach}
use go_holons.Holonrpc.Server.Shutdown.{IsCut}
use go_holons.Holonrpc.Server.Connection.{receive_message, read_frame, read_loop}

-- The others do to the pending table of the peer what is listed.
pub record Stays (peer : ℕ) (o : Others Server) : Type 0 where
  pub doings : (s : Server) → ((o.act s).heap peer).pending ≡ run o.table (s.heap peer).pending

-- the messages with a method
abbrev pub request_in : Option RpcMessage → List RpcMessage
request_in none = []
request_in (some m) = if is_empty m.method then [] else m ∷ []

abbrev pub request_of : Codec → Option Text → List RpcMessage
request_of c none = []
request_of c (some payload) = request_in (c.decode_message payload)

abbrev pub requests_in : Codec → List (Arrival Server) → List RpcMessage
requests_in c [] = []
requests_in c (a ∷ arrivals) = request_of c a.frame ++ requests_in c arrivals

module _ (c : Codec) (w : World) where
  send_peer_error-server :
      (peer : ℕ) (id : Text) (e : ResponseError) (s : Server)
      → (send_peer_error c w peer id e s).1 ≡ s
  unfolding send_peer_error write_peer ◌>>=◌
  send_peer_error-server peer id e s = ground arith

  reply_error-server :
      (peer : ℕ) (id : Text) (e : ResponseError) (s : Server) → (reply_error c w peer id e s).1 ≡ s
  unfolding reply_error
  reply_error-server peer id e s = ground (arith, send_peer_error-server peer id e s)

  delivered-run :
      (peer : ℕ) (m : RpcMessage) (o : Option Text) (s : Server)
      → ((deliver_keyed peer m o s).1.heap peer).pending ≡ run (answers m o) (s.heap peer).pending
  unfolding run
  delivered-run peer m none s = refl
  delivered-run peer m (some key) s = ground arith

  received-run :
      (peer : ℕ) (payload : Text) (o : Option RpcMessage) (s : Server)
      → ((receive_message c w peer payload o s).1.heap peer).pending
        ≡ run (heard_message o) (s.heap peer).pending
  unfolding receive_message run handle_peer_response ◌>>=◌
  received-run peer payload none s =
      ap (λ s'. (s'.heap peer).pending) (send_peer_error-server peer _ _ s)
  received-run peer payload (some m) s = ground (
    arith,
    delivered-run peer m (id_key m.id) s,
    reply_error-server peer m.id (invalid_request (text "invalid request")) s,
  )

  read_frame-run :
      (peer : ℕ) (frame : Option Text) (s : Server)
      → ((read_frame c w peer frame s).1.heap peer).pending
        ≡ run (heard c frame) (s.heap peer).pending
  unfolding read_frame run
  read_frame-run peer none s = refl
  read_frame-run peer (some payload) s = received-run peer payload (c.decode_message payload) s

  received-spawns :
      (peer : ℕ) (payload : Text) (o : Option RpcMessage) (s : Server)
      → (receive_message c w peer payload o s).0 ≡ request_in o
  unfolding receive_message ◌>>=◌
  received-spawns peer payload none s = refl
  received-spawns peer payload (some m) s = ground arith

  read_frame-spawns :
      (peer : ℕ) (frame : Option Text) (s : Server)
      → (read_frame c w peer frame s).0 ≡ request_of c frame
  unfolding read_frame
  read_frame-spawns peer none s = refl
  read_frame-spawns peer (some payload) s =
      received-spawns peer payload (c.decode_message payload) s

  -- The loop gives every request that it reads to a goroutine, in the order in which it read them.
  pub read_loop-spawns :
      (peer : ℕ) (arrivals : List (Arrival Server)) (last : Others Server) (s : Server)
      → (read_loop c w peer arrivals last s).0 ≡ requests_in c arrivals
  unfolding read_loop ◌>>=◌
  read_loop-spawns peer [] last s = refl
  read_loop-spawns peer (a ∷ arrivals) last s =
      rw
        (
          read_frame-spawns peer a.frame (a.others.act s),
          read_loop-spawns peer arrivals last (read_frame c w peer a.frame (a.others.act s)).1,
        )
        refl

  detach-fails :
      (peer : ℕ) (s : Server)
      → ((detach c peer s).heap peer).pending
        ≡ fail_all (closed_message c error_connection_closed) (s.heap peer).pending
  unfolding detach fail_peer_pending
  detach-fails peer s = ground arith

  detach-cuts :
      (peer : ℕ) (s : Server)
      → IsCut ((detach c peer s).heap peer)
        × (lookup ((detach c peer s).heap peer).id (detach c peer s).peers ≡ none)
  unfolding detach fail_peer_pending fail_all
  detach-cuts peer s =
      ground (
        arith,
        text_eq_refl (s.heap peer).id,
        lookup-erase (s.heap peer).id (s.heap peer).id s.peers,
      )

  -- At its end the peer is canceled, no call waits in its table, and no peer has its name.
  pub read_loop-cuts :
      (peer : ℕ) (arrivals : List (Arrival Server)) (last : Others Server) (s : Server)
      → let s' = (read_loop c w peer arrivals last s).1 in
        IsCut (s'.heap peer) × (lookup (s'.heap peer).id s'.peers ≡ none)
  unfolding read_loop ◌>>=◌
  read_loop-cuts peer [] last s = detach-cuts peer (last.act s)
  read_loop-cuts peer (a ∷ arrivals) last s =
      read_loop-cuts peer arrivals last (read_frame c w peer a.frame (a.others.act s)).1

  -- The loop does to the pending table of its peer what the history says.
  pub read_loop-run :
      (peer : ℕ) (arrivals : List (Arrival Server)) (last : Others Server) (s : Server)
      → All (λ a. Stays peer a.others) arrivals
      → Stays peer last
      → ((read_loop c w peer arrivals last s).1.heap peer).pending
        ≡ run (history c arrivals last) (s.heap peer).pending
  unfolding read_loop run ◌>>=◌
  read_loop-run peer [] last s k l =
      detach-fails peer (last.act s)
      ∙ ap (fail_all (closed_message c error_connection_closed)) (l.doings s)
      ∙ sym (
          run-append last.table (fails (closed_message c error_connection_closed) ∷ [])
            (s.heap peer).pending)
  read_loop-run peer (a ∷ arrivals) last s (k, ks) l =
      let s' = (read_frame c w peer a.frame (a.others.act s)).1 in
      let p = (s.heap peer).pending in
      read_loop-run peer arrivals last s' ks l
      ∙ ap (run (history c arrivals last)) (
          read_frame-run peer a.frame (a.others.act s)
          ∙ ap (run (heard c a.frame)) (k.doings s)
          ∙ sym (run-append a.others.table (heard c a.frame) p))
      ∙ sym (run-append (a.others.table ++ heard c a.frame) (history c arrivals last) p)
