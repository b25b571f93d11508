-- ===== src/Holonrpc/Client/ReadLoop/Answers.antt =====
-- What the calls of a client get from the loop that reads its connection: `readLoop` and
-- `onDisconnect`, which `Invoke` relies on, of pkg/holonrpc/client.go.
use go_holons.Common.{ℕ, ◌≡◌, ap, ◌∙◌, none, some, List, true, is_some, All, All-map}
use go_holons.Common.Text.{Text}
use go_holons.Holonrpc.Message.{Codec}
use go_holons.Holonrpc.Pending.{register}
use go_holons.Holonrpc.Pending.Laws.{IsValid}
use go_holons.Holonrpc.Pending.Steps.{first_answer, LeavesAlone, register-first_answer}
use go_holons.Holonrpc.Reads.{Others, Arrival}
use go_holons.Holonrpc.Reads.History.{history, Keeps, history-LeavesAlone, history-answers}
use go_holons.Holonrpc.Client.Connection.{Client}
use go_holons.Holonrpc.Client.ReadLoop.{read_loop}
use go_holons.Holonrpc.Client.ReadLoop.Runs.{Stays, read_loop-run}

-- Others neither take the connection away nor use the key or read the channel of a call.
abbrev pub Spares : Text → ℕ → Others Client → Type 0
Spares k ch o = Stays o × All (LeavesAlone k ch) o.table

-- the client with a call that has just registered its key
abbrev pub calling : Text → Client → Client
calling k s = record s { pending = (register k s.pending).1 }

-- A call that registers its key while the client has a connection, whose loop then reads those
-- frames until a read fails, while the others leave the connection, the key and the channel alone,
-- finds in its channel what comes first in the history of the table: a response with its key, or
-- the error of the closed connection; a wrong version of the response replaces its content by an
-- error. And the client has no connection then.
pub read_loop-first_answer :
    (c : Codec) (ws : ℕ) (k : Text) (arrivals : List (Arrival Client)) (last : Others Client)
    (s : Client)
    → IsValid s.pending
    → s.ws ≡ some ws
    → All (λ a. Spares k s.pending.next a.others) arrivals
    → Spares k s.pending.next last
    → let s' = (read_loop c ws arrivals last (calling k s)).0 in
      (s'.pending.buffers s.pending.next ≡ first_answer k (history c arrivals last))
      × (s'.ws ≡ none)
unfolding register
read_loop-first_answer c ws k arrivals last s v e h l =
    let ran =
      read_loop-run c ws arrivals last (calling k s)
        (All-map (λ (a : Arrival Client) (p : Spares k s.pending.next a.others). p.0) arrivals h)
        l.0 e in
    (
      ap (λ p. p.buffers s.pending.next) ran.0
          ∙ register-first_answer k s.pending (history c arrivals last) v (
              history-LeavesAlone c k s.pending.next arrivals last
                (All-map (λ (a : Arrival Client) (p : Spares k s.pending.next a.others). p.1)
                  arrivals h)
                l.1),
      ran.1,
    )

-- No call hangs: a call that registers its key while the client has a connection has an answer in
-- its channel when the loop that reads the connection ends, whatever was read, while the others
-- leave the connection, the key and the channel alone and do not delete the key.
pub read_loop-answers :
    (c : Codec) (ws : ℕ) (k : Text) (arrivals : List (Arrival Client)) (last : Others Client)
    (s : Client)
    → IsValid s.pending
    → s.ws ≡ some ws
    → All (λ a. Spares k s.pending.next a.others) arrivals
    → Spares k s.pending.next last
    → All (λ a. All (Keeps k) a.others.table) arrivals
    → All (Keeps k) last.table
    → is_some ((read_loop c ws arrivals last (calling k s)).0.pending.buffers s.pending.next) ≡ true
read_loop-answers c ws k arrivals last s v e h l keeps last_keeps =
    ap is_some (read_loop-first_answer c ws k arrivals last s v e h l).0
    ∙ history-answers c k arrivals last keeps last_keeps
