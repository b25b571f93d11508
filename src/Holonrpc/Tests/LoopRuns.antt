-- ===== src/Holonrpc/Tests/LoopRuns.antt =====
-- Runs of the reconnect loop of pkg/holonrpc/client.go.
use go_holons.Common.{◌≡◌, refl, none, some, List, [], ◌∷◌, ◌++◌, true, false}
use go_holons.Holonrpc.Message.{plain}
use go_holons.Holonrpc.Client.Connection.{
  Client, Dialer, refused, dialed, new_client, connect_to, connected, on_disconnect, subprotocol,
}
use go_holons.Holonrpc.Client.Loop.{Try, Turn, returned, idles, closes_done, reconnect_loop}
use go_holons.Holonrpc.Client.Lives.{IsClient}
use go_holons.Holonrpc.Client.Lives.Reconnect.{IsLost, loss-recovers}
use go_holons.Holonrpc.Client.Lives.Loops.{
  endings, ends_of, reconnect_loop-closes_done, reconnect_loop-returns,
}
use go_holons.Holonrpc.Tests.{toy}

abbrev down : Dialer
down = record { dial = λ _. refused (plain []); meanwhile = λ s. s }

abbrev up : Dialer
up = record { dial = λ _. dialed 9 subprotocol; meanwhile = λ s. s }

abbrev fails_once : Try
fails_once = record { network = down; fires = true; asleep = λ s. s }

abbrev reaches : Try
reaches = record { network = up; fires = true; asleep = λ s. s }

-- A client with a connection and a reconnect session.
abbrev online : Client
online = record (connect_to 7 new_client) {
  reconnect_ctx = some 0;
  reconnect_wake = some false;
  reconnect_done = some 0;
}

online-IsClient : IsClient online
unfolding new_client
online-IsClient = record {
  canceling = λ _. refl;
  receiving = λ _. refl;
  reading = λ _. refl;
  waking = refl;
  looping = refl;
  shut = λ e. cc;
  disabled = λ e. cc;
}

abbrev outage : List Try
outage = fails_once ∷ fails_once ∷ []

outage-IsLost : IsLost fails_once
outage-IsLost = (((λ _. tt), λ s h. h), refl, λ s h. h)

abbrev wakes : Turn
wakes = record { woken = true; idle = λ s. s; tries = outage ++ reaches ∷ [] }

loss-recovers_example :
    let lost = (on_disconnect toy 7 online).1 in
    let r = reconnect_loop (wakes ∷ []) lost in
    (lost.ws ≡ none) × (lost.reconnect_wake ≡ some true) × (r.0 ≡ idles) × (connected r.1 ≡ true)
unfolding new_client
loss-recovers_example =
    loss-recovers toy 7 outage [] reaches online online-IsClient refl refl refl
      (outage-IsLost, (outage-IsLost, tt)) ((λ _. (9, refl)), λ s h. h)

reconnect_loop-closes_done_example :
    endings (reconnect_loop (wakes ∷ []) online).2 ≡ ends_of (reconnect_loop (wakes ∷ []) online).0
reconnect_loop-closes_done_example = reconnect_loop-closes_done (wakes ∷ []) online

abbrev offline : Client
offline = record new_client { closed = true }

reconnect_loop-returns_example :
    let r = reconnect_loop (wakes ∷ []) offline in
    (r.0 ≡ returned) × (r.2 ≡ closes_done ∷ []) × (r.1.ws ≡ offline.ws)
reconnect_loop-returns_example =
    reconnect_loop-returns wakes fails_once (fails_once ∷ reaches ∷ []) [] offline refl refl
