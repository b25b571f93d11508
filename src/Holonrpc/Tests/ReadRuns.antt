-- ===== src/Holonrpc/Tests/ReadRuns.antt =====
-- Runs of the read loop of pkg/holonrpc/client.go.
use go_holons.Common.{◌≡◌, refl, none, some, List, [], ◌∷◌, true, is_some}
use go_holons.Common.Text.{text, text_eq, trim_space, is_space}
use go_holons.Holonrpc.Message.{Codec, RpcMessage, json_rpc_version, id_key}
use go_holons.Holonrpc.Pending.{empty}
use go_holons.Holonrpc.Pending.Laws.{empty-IsValid}
use go_holons.Holonrpc.Pending.Steps.{run}
use go_holons.Holonrpc.Reads.{Others, Arrival}
use go_holons.Holonrpc.Client.Connection.{Client, new_client, connect_to}
use go_holons.Holonrpc.Client.ReadLoop.{read_loop}
use go_holons.Holonrpc.Client.ReadLoop.Answers.{
  Spares, calling, read_loop-first_answer, read_loop-answers,
}
use go_holons.Holonrpc.Tests.{toy, request_id}

-- A response under the call's identifier.
abbrev pub reply : RpcMessage
reply = record {
  jsonrpc = json_rpc_version;
  id = request_id;
  method = [];
  params = [];
  result = text "{}";
  error = none;
}

abbrev pub hears : Codec
hears = record toy { decode_message = λ _. some reply }

abbrev quiet : Others Client
quiet = record { act = λ s. s; table = [] }

quiet-Spares : Spares request_id 0 quiet
unfolding run
quiet-Spares = (record { connection = λ s. refl; doings = λ s. refl }, tt)

abbrev frames : List (Arrival Client)
frames =
    record { others = quiet; frame = none }
    ∷ record { others = quiet; frame = some (text "{}") }
    ∷ []

read_loop-first_answer_example :
    let s' = (read_loop hears 7 frames quiet (calling request_id (connect_to 7 new_client))).0 in
    (s'.pending.buffers 0 ≡ some reply) × (s'.ws ≡ none)
unfolding new_client empty text id_key trim_space is_space text_eq
read_loop-first_answer_example =
    read_loop-first_answer hears 7 request_id frames quiet (connect_to 7 new_client) empty-IsValid
      refl (quiet-Spares, (quiet-Spares, tt)) quiet-Spares

-- Where nothing is read, the call gets the error of the closed connection.
read_loop-answers_example :
    is_some (
      (read_loop toy 7 [] quiet (calling request_id (connect_to 7 new_client))).0.pending.buffers 0)
    ≡ true
unfolding new_client empty
read_loop-answers_example =
    read_loop-answers toy 7 request_id [] quiet (connect_to 7 new_client) empty-IsValid refl tt
      quiet-Spares tt tt
