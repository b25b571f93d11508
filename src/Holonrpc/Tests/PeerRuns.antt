-- ===== src/Holonrpc/Tests/PeerRuns.antt =====
-- Runs of `handleWebSocket` of pkg/holonrpc/server.go.
use go_holons.Common.{◌≡◌, ◌≢◌, ◌⊎◌, refl, none, some, List, [], ◌∷◌, true, is_some}
use go_holons.Common.Text.{text, text_eq, trim_space, is_space}
use go_holons.Common.Map.{lookup}
use go_holons.Holonrpc.Message.{id_key}
use go_holons.Holonrpc.Pending.{empty}
use go_holons.Holonrpc.Pending.Laws.{empty-IsValid}
use go_holons.Holonrpc.Pending.Steps.{run}
use go_holons.Holonrpc.Reads.{Others, Arrival}
use go_holons.Holonrpc.Server.State.{Server, World, context_done}
use go_holons.Holonrpc.Message.{plain}
use go_holons.Holonrpc.Server.Lifecycle.{new_server}
use go_holons.Holonrpc.Server.Shutdown.{IsCut}
use go_holons.Holonrpc.Server.Connection.{closes_now, read_loop, handle_web_socket}
use go_holons.Holonrpc.Server.Connection.Runs.{requests_in}
use go_holons.Holonrpc.Server.Connection.Answers.{
  Spares, calling, handle_web_socket-IsCut, peer_read-first_answer, peer_read-answers,
}
use go_holons.Holonrpc.Tests.{toy, request_id}
use go_holons.Holonrpc.Tests.ReadRuns.{reply, hears}

abbrev world : World
world = record {
  write_error = λ _ _. none;
  await = λ peer key ch s. (context_done (plain []), s);
  interrupt = λ _ s. (none, s);
  completion = λ calls. calls;
}

abbrev quiet : Others Server
quiet = record { act = λ s. s; table = [] }

quiet-Spares : Spares toy world 0 request_id 0 quiet
unfolding run
quiet-Spares = (record { doings = λ s. refl }, tt)

abbrev frames : List (Arrival Server)
frames =
    record { others = quiet; frame = none }
    ∷ record { others = quiet; frame = some (text "{}") }
    ∷ []

-- A server whose peer has no call yet.
abbrev server : Server
server = new_server []

handle_web_socket-IsCut_example :
    let ((outcome, requests), s', sent) =
      handle_web_socket hears world (some (text "holon-rpc")) frames quiet server in
    ((some (text "holon-rpc") ≡ some (text "holon-rpc"))
      × (outcome ≡ closes_now 0)
      × (requests ≡ requests_in hears frames)
      × IsCut (s'.heap 0)
      × (lookup (s'.heap 0).id s'.peers ≡ none))
    ⊎ ((some (text "holon-rpc") ≢ some (text "holon-rpc"))
        × (requests ≡ [])
        × (s' ≡ server)
        × (sent ≡ []))
unfolding new_server
handle_web_socket-IsCut_example =
    handle_web_socket-IsCut hears world (some (text "holon-rpc")) frames quiet server

peer_read-first_answer_example :
    ((read_loop hears world 0 frames quiet (calling toy world 0 request_id server)).1.heap
        0).pending.buffers
      0
    ≡ some reply
unfolding new_server empty text id_key trim_space is_space text_eq
peer_read-first_answer_example =
    peer_read-first_answer hears world 0 request_id frames quiet server empty-IsValid
      (quiet-Spares, (quiet-Spares, tt)) quiet-Spares

-- Where nothing is read, the call gets the error of the closed connection.
peer_read-answers_example :
    is_some (
      ((read_loop toy world 0 [] quiet (calling toy world 0 request_id server)).1.heap
          0).pending.buffers
        0)
    ≡ true
unfolding new_server empty
peer_read-answers_example =
    peer_read-answers toy world 0 request_id [] quiet server empty-IsValid tt quiet-Spares tt tt
