-- ===== src/Holonrpc/Server/Connection/Answers.antt =====
-- What `handleWebSocket` of pkg/holonrpc/server.go leaves behind, and what the calls that
-- `Server.Invoke` makes of the peer get from its loop.
use go_holons.Common.{
  ℕ, ◌≡◌, ◌≢◌, refl, ap, ◌∙◌, ◌⊎◌, inl, inr, Option, none, some, List, [], true, arith, All,
  All-map, is_some, Bool-cases,
}
use go_holons.Common.Text.{Text, text, text_eq, text_eq_iff}
use go_holons.Common.Map.{lookup}
use go_holons.Holonrpc.Message.{Codec}
use go_holons.Holonrpc.Pending.{register}
use go_holons.Holonrpc.Pending.Laws.{IsValid}
use go_holons.Holonrpc.Pending.Steps.{first_answer, LeavesAlone, register-first_answer, run}
use go_holons.Holonrpc.Reads.{Others, Arrival}
use go_holons.Holonrpc.Reads.History.{history, Keeps, history-LeavesAlone, history-answers}
use go_holons.Holonrpc.Server.State.{World, Server, update_pending}
use go_holons.Holonrpc.Server.Lifecycle.{attach, upgrade}
use go_holons.Holonrpc.Server.Shutdown.{IsCut}
use go_holons.Holonrpc.Server.Connection.{closes_now, read_loop, serve_upgraded, handle_web_socket}
use go_holons.Holonrpc.Server.Connection.Runs.{
  Stays, requests_in, read_loop-spawns, read_loop-cuts, read_loop-run,
}

module _ (c : Codec) (w : World) where
  -- Whatever frames come and whatever the others do: where the upgrade negotiated holon-rpc, the
  -- handler has given each request that it read to a goroutine, in order, and at its end the new
  -- peer is canceled, no call waits in its table and no peer has its name; else the server is as
  -- before, and no frame was sent.
  pub handle_web_socket-IsCut :
      (protocol : Option Text) (arrivals : List (Arrival Server)) (last : Others Server)
      (s : Server)
      → let ((outcome, requests), s', sent) = handle_web_socket c w protocol arrivals last s in
        let peer = s.next_peer in
        ((protocol ≡ some (text "holon-rpc"))
          × (outcome ≡ closes_now peer)
          × (requests ≡ requests_in c arrivals)
          × IsCut (s'.heap peer)
          × (lookup (s'.heap peer).id s'.peers ≡ none))
        ⊎ ((protocol ≢ some (text "holon-rpc")) × (requests ≡ []) × (s' ≡ s) × (sent ≡ []))
  unfolding handle_web_socket serve_upgraded upgrade attach
  handle_web_socket-IsCut none arrivals last s = inr ((λ e. cc), refl, refl, refl)
  handle_web_socket-IsCut (some protocol) arrivals last s =
      elim (Bool-cases (text_eq protocol (text "holon-rpc"))) [
        | inl same ↦
            let s' = (attach s).1 in
            let cut = read_loop-cuts c w s.next_peer arrivals last s' in
            rw same (
              inl (
                ap some ((text_eq_iff protocol (text "holon-rpc")).0 same),
                refl,
                read_loop-spawns c w s.next_peer arrivals last s',
                cut.0,
                cut.1,
              ))
        | inr other ↦
            rw other (
              inr
                ((λ e. ground (arith, text_eq_iff protocol (text "holon-rpc"))), refl, refl, refl))
      ]

  -- the server with a call of the peer that has just registered its key
  abbrev pub calling : ℕ → Text → Server → Server
  calling peer k s = update_pending peer (λ p. (register k p).1) s

  -- Others neither use the key nor read the channel of a call of the peer.
  abbrev pub Spares : ℕ → Text → ℕ → Others Server → Type 0
  Spares peer k ch o = Stays peer o × All (LeavesAlone k ch) o.table

  -- A call of a peer that registers its key, and whose connection then reads those frames until a
  -- read fails, finds in its channel what comes first in the history of the peer's table: a
  -- response with its key, or the error of the closed connection.
  pub peer_read-first_answer :
      (peer : ℕ) (k : Text) (arrivals : List (Arrival Server)) (last : Others Server) (s : Server)
      → IsValid (s.heap peer).pending
      → All (λ a. Spares peer k (s.heap peer).pending.next a.others) arrivals
      → Spares peer k (s.heap peer).pending.next last
      → ((read_loop c w peer arrivals last (calling peer k s)).1.heap peer).pending.buffers
          (s.heap peer).pending.next
        ≡ first_answer k (history c arrivals last)
  unfolding register
  peer_read-first_answer peer k arrivals last s v h l =
      let p = (s.heap peer).pending in
      let stay =
        All-map (λ (a : Arrival Server) (q : Spares peer k p.next a.others). q.0) arrivals h in
      let alone =
        All-map (λ (a : Arrival Server) (q : Spares peer k p.next a.others). q.1) arrivals h in
      let here : ((calling peer k s).heap peer).pending ≡ (register k p).1 = ground arith in
      ap (λ q. q.buffers p.next)
        (read_loop-run c w peer arrivals last (calling peer k s) stay l.0
          ∙ ap (run (history c arrivals last)) here)
      ∙ register-first_answer k p (history c arrivals last) v
          (history-LeavesAlone c k p.next arrivals last alone l.1)

  -- No call of the server hangs: when the loop ends, a call of its peer has an answer in its
  -- channel, whatever was read, while the others leave the key and the channel alone and do not
  -- delete the key.
  pub peer_read-answers :
      (peer : ℕ) (k : Text) (arrivals : List (Arrival Server)) (last : Others Server) (s : Server)
      → IsValid (s.heap peer).pending
      → All (λ a. Spares peer k (s.heap peer).pending.next a.others) arrivals
      → Spares peer k (s.heap peer).pending.next last
      → All (λ a. All (Keeps k) a.others.table) arrivals
      → All (Keeps k) last.table
      → is_some (
          ((read_loop c w peer arrivals last (calling peer k s)).1.heap peer).pending.buffers
            (s.heap peer).pending.next)
        ≡ true
  peer_read-answers peer k arrivals last s v h l keeps last_keeps =
      ap is_some (peer_read-first_answer peer k arrivals last s v h l)
      ∙ history-answers c k arrivals last keeps last_keeps
