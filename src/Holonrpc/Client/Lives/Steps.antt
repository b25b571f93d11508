-- ===== src/Holonrpc/Client/Lives/Steps.antt =====
-- The steps of a client's life, in any order: pkg/holonrpc/client.go.
use go_holons.Common.{ℕ, ◌≡◌, some, List, [], ◌∷◌, true, false, is_some, if-cases}
use go_holons.Common.Text.{Text}
use go_holons.Holonrpc.Message.{Codec}
use go_holons.Holonrpc.Server.State.{Handler}
use go_holons.Holonrpc.Client.Connection.{
  Client, Effect, Dialer, connect, connect_with_reconnect, reconnect_attempt, disable_reconnect,
  on_disconnect, close, take_wake, register_handler, unregister_handler,
}
use go_holons.Holonrpc.Client.Lives.{IsClient, Keeps}

abbrev Left : Unit {0} × Client × List Effect → Type 0
Left r = IsClient r.1

quiet-IsClient :
    (s : Client)
    → is_some s.reconnect_wake ≡ true
    → IsClient s
    → IsClient (record s { reconnect_wake = some false })
quiet-IsClient s there v = record {
  canceling = v.canceling;
  receiving = v.receiving;
  reading = v.reading;
  waking = cc (there, v.waking);
  looping = v.looping;
  shut = v.shut;
  disabled = v.disabled;
}

pub take_wake-IsClient : (s : Client) → IsClient s → IsClient (take_wake s)
unfolding take_wake
take_wake-IsClient s v =
    if-cases IsClient (is_some s.reconnect_wake) _ _ (λ e. quiet-IsClient s e v) (λ _. v)

-- The steps: what a program calls, the end of a read loop, and what the reconnect loop does.
pub data Life : Type 0 where
  connects connects_with_reconnect : Dialer → Text → Life
  closes_client : Dialer → Life
  disconnects disables : ℕ → Life
  wakes : Life
  attempts : Dialer → Life
  registers : Text → Handler → Life
  unregisters : Text → Life

unfoldable pub live : Codec → Life → Client → Client
live c (connects d url) s = (connect d url s).1
live c (connects_with_reconnect d url) s = (connect_with_reconnect d url s).1
live c (closes_client d) s = (close c d s).1
live c (disconnects ws) s = (on_disconnect c ws s).1
live c (disables n) s = (disable_reconnect n s).1
live c wakes s = take_wake s
live c (attempts d) s = (reconnect_attempt d s).1
live c (registers method h) s = register_handler method h s
live c (unregisters method) s = unregister_handler method s

unfoldable pub live_all : Codec → List Life → Client → Client
unfolding live
live_all c [] s = s
live_all c (l ∷ ls) s = live_all c ls (live c l s)

-- What runs while a step waits keeps the client in order.
abbrev pub IsOrderly : Life → Type 0
IsOrderly (connects d url) = Keeps d
IsOrderly (connects_with_reconnect d url) = Keeps d
IsOrderly (closes_client d) = Keeps d
IsOrderly (attempts d) = Keeps d
IsOrderly _ = Unit {0}
