-- ===== src/Holonrpc/Client/ReadLoop/Runs.antt =====
-- What `readLoop` of pkg/holonrpc/client.go does to the pending table of the client.
use go_holons.Common.{
  ℕ, ◌≡◌, refl, sym, ap, ◌∙◌, Option, none, some, List, [], ◌∷◌, ◌++◌, arith, All,
}
use go_holons.Common.Text.{Text}
use go_holons.Holonrpc.Message.{Codec, RpcMessage, id_key, error_connection_closed}
use go_holons.Holonrpc.Pending.{fail_all}
use go_holons.Holonrpc.Pending.Steps.{fails, run}
use go_holons.Holonrpc.Reads.{Others, Arrival}
use go_holons.Holonrpc.Reads.History.{answers, heard_message, heard, history, run-append}
use go_holons.Holonrpc.Server.Request.{closed_message}
use go_holons.Holonrpc.Client.Connection.{Client, on_disconnect, fail_all_pending}
use go_holons.Holonrpc.Client.Request.{receive_frame, receive_message, handle_response, answered}
use go_holons.Holonrpc.Client.ReadLoop.{read_frame, end_reads, read_loop}

-- The others leave the client its connection, and do to the pending table what is listed.
pub record Stays (o : Others Client) : Type 0 where
  pub connection : (s : Client) → (o.act s).ws ≡ s.ws
  pub doings : (s : Client) → (o.act s).pending ≡ run o.table s.pending

answered-run :
    (c : Codec) (s : Client) (m : RpcMessage) (o : Option Text)
    → ((answered c s m o).pending ≡ run (answers m o) s.pending) × ((answered c s m o).ws ≡ s.ws)
unfolding run
answered-run c s m none = (refl, refl)
answered-run c s m (some key) = (refl, refl)

received-run :
    (c : Codec) (ws : ℕ) (payload : Text) (o : Option RpcMessage) (s : Client)
    → let s' = (receive_message c ws payload o s).0 in
      (s'.pending ≡ run (heard_message o) s.pending) × (s'.ws ≡ s.ws)
unfolding receive_message run handle_response
received-run c ws payload none s = (refl, refl)
received-run c ws payload (some m) s = ground (arith, answered-run c s m (id_key m.id))

read_frame-run :
    (c : Codec) (ws : ℕ) (frame : Option Text) (s : Client)
    → let s' = (read_frame c ws frame s).0 in
      (s'.pending ≡ run (heard c frame) s.pending) × (s'.ws ≡ s.ws)
unfolding read_frame receive_frame run
read_frame-run c ws none s = (refl, refl)
read_frame-run c ws (some payload) s = received-run c ws payload (c.decode_message payload) s

end_reads-run :
    (c : Codec) (ws : ℕ) (s : Client)
    → s.ws ≡ some ws
    → let s' = (end_reads c ws s).0 in
      (s'.pending ≡ fail_all (closed_message c error_connection_closed) s.pending) × (s'.ws ≡ none)
unfolding end_reads on_disconnect fail_all_pending
end_reads-run c ws s e = ground (arith, e)

-- The loop does to the pending table what its history says, and then the client has no connection.
pub read_loop-run :
    (c : Codec) (ws : ℕ) (arrivals : List (Arrival Client)) (last : Others Client) (s : Client)
    → All (λ a. Stays a.others) arrivals
    → Stays last
    → s.ws ≡ some ws
    → let s' = (read_loop c ws arrivals last s).0 in
      (s'.pending ≡ run (history c arrivals last) s.pending) × (s'.ws ≡ none)
unfolding read_loop run
read_loop-run c ws [] last s k l e =
    let ended = end_reads-run c ws (last.act s) (l.connection s ∙ e) in
    (
      ended.0
          ∙ ap (fail_all (closed_message c error_connection_closed)) (l.doings s)
          ∙ sym (
              run-append last.table (fails (closed_message c error_connection_closed) ∷ [])
                s.pending),
      ended.1,
    )
read_loop-run c ws (a ∷ arrivals) last s (k, ks) l e =
    let read = read_frame-run c ws a.frame (a.others.act s) in
    let rest =
      read_loop-run c ws arrivals last (read_frame c ws a.frame (a.others.act s)).0 ks l
        (read.1 ∙ k.connection s ∙ e) in
    (
      rest.0
          ∙ ap (run (history c arrivals last)) (read.0 ∙ ap (run (heard c a.frame)) (k.doings s))
          ∙ ap (run (history c arrivals last))
              (sym (run-append a.others.table (heard c a.frame) s.pending))
          ∙ sym
              (run-append (a.others.table ++ heard c a.frame) (history c arrivals last) s.pending),
      rest.1,
    )
