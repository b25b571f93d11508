-- ===== src/Holonrpc/Client/Lives.antt =====
-- What a client is at every point of its life: connecting, reconnecting, losing its connection and
-- closing, of pkg/holonrpc/client.go, in any order.
pub mod Steps
pub mod Ends
pub mod Reconnect
pub mod Loops
use go_holons.Common.{
  ℕ, suc, ◌*◌, ◌^◌, ◌≤◌, ◌≡◌, ◌≢◌, refl, sym, ◌∙◌, Option, none, some, List, [], ◌∷◌, ◌++◌, Bool,
  true, false, not, ◌&&◌, ◌||◌, arith, All, is_some, if◌then◌else◌, if-cases, ◌==◌, ltb,
}
use go_holons.Common.Text.{Text, text, text_eq, is_empty, trim_space}
use go_holons.Common.Map.{insert, erase}
use go_holons.Holonrpc.Message.{Codec, Error, error_connection_closed}
use go_holons.Holonrpc.Server.State.{Handler}
use go_holons.Holonrpc.Client.Connection.{
  Client, Effect, Dialed, refused, dialed, Dialer, Attempt, stops, waits, retries, attempted,
  client_is_closed, connect_to, attach, connected, disable_reconnect, is_session, reattach,
  reconnect_base, dial_result, connect, open_session, settle_session, connect_with_reconnect,
  redial_result, reconnect_attempt, fail_all_pending, current_conn, on_disconnect, close, take_wake,
  register_handler, unregister_handler, new_client, wake, subprotocol,
}

-- While the client is open, its connection comes with its context and its cancel function; a
-- reconnect session comes with its wake and done channels; a closed client has neither.
pub record IsClient (s : Client) : Type 0 where
  pub canceling : s.closed ≡ false → is_some s.cancel ≡ is_some s.ws
  pub receiving : s.closed ≡ false → is_some s.rx_ctx ≡ is_some s.ws
  pub reading : s.closed ≡ false → is_some s.done ≡ is_some s.ws
  pub waking : is_some s.reconnect_wake ≡ is_some s.reconnect_ctx
  pub looping : is_some s.reconnect_done ≡ is_some s.reconnect_ctx
  pub shut : s.closed ≡ true → s.ws ≡ none
  pub disabled : s.closed ≡ true → s.reconnect_ctx ≡ none

-- What other goroutines do while a step waits keeps the client in order.
abbrev pub Keeps : Dialer → Type 0
Keeps d = (s : Client) → IsClient s → IsClient (d.meanwhile s)

-- The state that a step leaves is in order.
abbrev After : {A : Type 0} → A × Client × List Effect → Type 0
After r = IsClient r.1

pub new_client-IsClient : IsClient new_client
unfolding new_client
new_client-IsClient = record {
  canceling = λ _. refl;
  receiving = λ _. refl;
  reading = λ _. refl;
  waking = refl;
  looping = refl;
  shut = λ _. refl;
  disabled = λ _. refl;
}

connect_to-IsClient :
    (ws : ℕ) (s : Client) → s.closed ≡ false → IsClient s → IsClient (connect_to ws s)
connect_to-IsClient ws s serving v = record {
  canceling = λ _. refl;
  receiving = λ _. refl;
  reading = λ _. refl;
  waking = v.waking;
  looping = v.looping;
  shut = λ closed. cc;
  disabled = v.disabled;
}

attach-IsClient : (ws : ℕ) (s : Client) → IsClient s → IsClient (attach ws s).1
unfolding attach
attach-IsClient ws s v =
    if-cases (After {A = Option Error}) s.closed _ _ (λ _. v)
      (λ serving. connect_to-IsClient ws s serving v)

reattach-IsClient : (ws : ℕ) (s : Client) → IsClient s → IsClient (reattach ws s).1
unfolding reattach
reattach-IsClient ws s v =
    if-cases (After {A = Attempt}) s.closed _ _ (λ _. v)
      λ serving.
        if-cases (After {A = Attempt}) (is_some s.ws) _ _ (λ _. v)
          (λ _. connect_to-IsClient ws s serving v)

dial_result-IsClient :
    (d : Dialer) (r : Dialed) (s : Client) → IsClient s → IsClient (dial_result d r s).1
unfolding dial_result
dial_result-IsClient d (refused e) s v = v
dial_result-IsClient d (dialed ws protocol) s v =
    if-cases (After {A = Option Error}) (text_eq protocol subprotocol) _ _
      (λ _. attach-IsClient ws s v) (λ _. v)

redial_result-IsClient :
    (d : Dialer) (r : Dialed) (s : Client) → IsClient s → IsClient (redial_result d r s).1
unfolding redial_result
redial_result-IsClient d (refused e) s v = v
redial_result-IsClient d (dialed ws protocol) s v =
    if-cases (After {A = Attempt}) (text_eq protocol subprotocol) _ _
      (λ _. reattach-IsClient ws s v) (λ _. v)

pub connect-IsClient :
    (d : Dialer) (url : Text) (s : Client) → Keeps d → IsClient s → IsClient (connect d url s).1
unfolding connect
connect-IsClient d url s k v =
    if-cases (After {A = Option Error}) (is_empty (trim_space url)) _ _ (λ _. v)
      λ _.
        if-cases (After {A = Option Error}) s.closed _ _ (λ _. v)
          λ _.
            if-cases (After {A = Option Error}) (is_some s.ws) _ _ (λ _. v)
              λ _. dial_result-IsClient d (d.dial url) _ (k s v)

pub reconnect_attempt-IsClient :
    (d : Dialer) (s : Client) → Keeps d → IsClient s → IsClient (reconnect_attempt d s).1
unfolding reconnect_attempt
reconnect_attempt-IsClient d s k v =
    if-cases (After {A = Attempt}) s.closed _ _ (λ _. v)
      λ _.
        if-cases (After {A = Attempt}) (is_some s.ws) _ _ (λ _. v)
          λ _. redial_result-IsClient d (d.dial s.reconnect_url) _ (k s v)

pub disable_reconnect-IsClient :
    (n : ℕ) (s : Client) → IsClient s → IsClient (disable_reconnect n s).1
unfolding disable_reconnect
disable_reconnect-IsClient n s v =
    if-cases (After {A = Unit {0}}) (is_session n s.reconnect_done) _ _
      (λ _. record {
        canceling = v.canceling;
        receiving = v.receiving;
        reading = v.reading;
        waking = refl;
        looping = refl;
        shut = v.shut;
        disabled = λ _. refl;
      })
      (λ _. v)

settle_session-IsClient :
    (d : Dialer) (n : ℕ) (r : Option Error × Client × List Effect)
    → IsClient r.1
    → IsClient (settle_session d n r).1
unfolding settle_session
settle_session-IsClient d n (none, s, fx) v = v
settle_session-IsClient d n (some e, s, fx) v = disable_reconnect-IsClient n s v

open_session-IsClient :
    (d : Dialer) (url : Text) (s : Client)
    → s.closed ≡ false
    → IsClient s
    → IsClient (open_session d url s)
open_session-IsClient d url s serving v = record {
  canceling = v.canceling;
  receiving = v.receiving;
  reading = v.reading;
  waking = refl;
  looping = refl;
  shut = v.shut;
  disabled = λ closed. cc;
}

counted-IsClient : (n : ℕ) (s : Client) → IsClient s → IsClient (record s { sessions = n })
counted-IsClient n s v = record {
  canceling = v.canceling;
  receiving = v.receiving;
  reading = v.reading;
  waking = v.waking;
  looping = v.looping;
  shut = v.shut;
  disabled = v.disabled;
}

pub connect_with_reconnect-IsClient :
    (d : Dialer) (url : Text) (s : Client)
    → Keeps d
    → IsClient s
    → IsClient (connect_with_reconnect d url s).1
unfolding connect_with_reconnect
connect_with_reconnect-IsClient d url s k v =
    if-cases (After {A = Option Error}) (is_empty (trim_space url)) _ _ (λ _. v)
      λ _.
        if-cases (After {A = Option Error}) s.closed _ _ (λ _. counted-IsClient _ s v)
          λ serving.
            if-cases (After {A = Option Error}) (is_some s.ws || is_some s.reconnect_ctx) _ _
              (λ _. counted-IsClient _ s v)
              λ _.
                settle_session-IsClient d s.sessions _
                  (connect-IsClient d url _ k (open_session-IsClient d url s serving v))
