-- ===== src/Holonrpc/Client/Connection.antt =====
-- The connection of pkg/holonrpc/client.go: `Client` with `Connect`, `ConnectWithReconnect`,
-- `Connected`, `Close`, `currentConn`, `onDisconnect`, `disableReconnect` and one attempt of
-- `reconnectLoop`. A connection is a number, which also names the context, the cancel function and
-- the `done` channel that are made with it; a reconnect session is a number in the same way.
use go_holons.Common.{
  ℕ, suc, ◌*◌, ◌^◌, Option, none, some, List, [], ◌∷◌, ◌++◌, Bool, true, false, not, ◌&&◌, ◌||◌,
  ltb, is_some, ◌==◌, if◌then◌else◌,
}
use go_holons.Common.Text.{Text, text, text_eq, is_empty, trim_space}
use go_holons.Common.Map.{Map, insert, erase}
use go_holons.Holonrpc.Value.{null}
use go_holons.Holonrpc.Message.{
  Codec, RpcMessage, ResponseError, Error, response, plain, wrapped, code_unavailable,
  error_message, error_text, error_connection_closed,
}
use go_holons.Holonrpc.Pending.{Pending, empty, fail_all}
use go_holons.Holonrpc.Server.State.{Handler}

-- `reconnect_wake` is the channel with a buffer of one: whether it holds a signal.
-- `sessions` counts the reconnect sessions that were made.
pub record Client : Type 0 where
  pub ws : Option ℕ
  pub rx_ctx : Option ℕ
  pub cancel : Option ℕ
  pub done : Option ℕ
  pub closed : Bool
  pub reconnect_url : Text
  pub reconnect_ctx : Option ℕ
  pub reconnect_cancel : Option ℕ
  pub reconnect_parent_stop : Option ℕ
  pub reconnect_wake : Option Bool
  pub reconnect_done : Option ℕ
  pub sessions : ℕ
  pub handlers : Map Handler
  pub pending : Pending RpcMessage
  pub next_client_id : ℕ

-- What a step does to a connection or a session.
pub data Effect : Type 0 where
  closes cancels cancels_reconnect stops_parent : ℕ → Effect

pub data Dialed : Type 0 where
  refused : Error → Dialed
  dialed : (ws : ℕ) (subprotocol : Text) → Dialed

-- What `websocket.Dial` gives for a URL, and what other goroutines do while the client dials, or
-- while `Close` waits for its goroutines.
pub record Dialer : Type 0 where
  pub dial : Text → Dialed
  pub meanwhile : Client → Client

-- `NewClient`
unfoldable pub new_client : Client
unfolding empty
new_client = record {
  ws = none;
  rx_ctx = none;
  cancel = none;
  done = none;
  closed = false;
  reconnect_url = [];
  reconnect_ctx = none;
  reconnect_cancel = none;
  reconnect_parent_stop = none;
  reconnect_wake = none;
  reconnect_done = none;
  sessions = 0;
  handlers = [];
  pending = empty;
  next_client_id = 0;
}

-- `Register`
unfoldable pub register_handler : Text → Handler → Client → Client
register_handler method h s = record s { handlers = insert method h s.handlers }

-- `Unregister`
unfoldable pub unregister_handler : Text → Client → Client
unregister_handler method s = record s { handlers = erase method s.handlers }

abbrev pub client_is_closed : Error
client_is_closed = plain (text "holon-rpc: client is closed")

abbrev pub already_connected : Error
already_connected = plain (text "holon-rpc: client already connected")

abbrev pub subprotocol : Text
subprotocol = text "holon-rpc"

-- A step with its effects.
abbrev pub E : Type 0 → Type 0
E A = Client → A × Client × List Effect

abbrev pub connect_to : ℕ → Client → Client
connect_to ws s = record s { ws = some ws; rx_ctx = some ws; cancel = some ws; done = some ws }

-- the second locked section of `Connect`
unfoldable pub attach : ℕ → E (Option Error)
attach ws s =
    if s.closed
    then (some client_is_closed, s, cancels ws ∷ closes ws ∷ [])
    else (none, connect_to ws s, [])

-- `Connected`
unfoldable pub connected : Client → Bool
connected s = not s.closed && is_some s.ws

abbrev pub effect_of : (ℕ → Effect) → Option ℕ → List Effect
effect_of f none = []
effect_of f (some n) = f n ∷ []

abbrev pub forget_session : Client → Client
forget_session s = record s {
  reconnect_url = [];
  reconnect_ctx = none;
  reconnect_cancel = none;
  reconnect_parent_stop = none;
  reconnect_wake = none;
  reconnect_done = none;
}

abbrev pub is_session : ℕ → Option ℕ → Bool
is_session n none = false
is_session n (some m) = n == m

-- `disableReconnect`
unfoldable pub disable_reconnect : ℕ → E (Unit {0})
disable_reconnect expected s =
    if is_session expected s.reconnect_done
    then (
      tt,
      forget_session s,
      effect_of stops_parent s.reconnect_parent_stop
          ++ effect_of cancels_reconnect s.reconnect_cancel,
    )
    else (tt, s, [])

-- How an attempt of `reconnectLoop` ends: the loop returns, it waits for the next disconnect, or
-- it tries again after a delay.
pub data Attempt : Type 0 where
  stops waits retries : Attempt

abbrev pub attempted : Client → Attempt
attempted s = if connected s then waits else retries

-- the `switch` of `reconnectLoop` and the test after it
unfoldable pub reattach : ℕ → E Attempt
unfolding connected
reattach ws s =
    if s.closed
    then (stops, s, cancels ws ∷ closes ws ∷ [])
    else if is_some s.ws
    then (attempted s, s, cancels ws ∷ closes ws ∷ [])
    else (attempted (connect_to ws s), connect_to ws s, [])

-- `reconnectDelay` in nanoseconds, before the random jitter of up to a tenth
unfoldable pub reconnect_base : ℕ → ℕ
reconnect_base n =
    let base = 500000000 * 2 ^ n in if ltb 30000000000 base then 30000000000 else base

module _ (d : Dialer) where
  -- `Connect` from `websocket.Dial` on
  unfoldable pub dial_result : Dialed → E (Option Error)
  unfolding attach
  dial_result (refused e) s = (some (wrapped (text "holon-rpc: dial failed: ") e), s, [])
  dial_result (dialed ws protocol) s =
      if text_eq protocol subprotocol
      then attach ws s
      else (some (plain (text "holon-rpc: server did not negotiate holon-rpc")), s, closes ws ∷ [])

  -- `Connect`
  unfoldable pub connect : Text → E (Option Error)
  unfolding dial_result
  connect url s =
      if is_empty (trim_space url)
      then (some (plain (text "holon-rpc: url is required")), s, [])
      else if s.closed
      then (some client_is_closed, s, [])
      else if is_some s.ws
      then (some already_connected, s, [])
      else dial_result (d.dial url) (d.meanwhile s)

  -- the fields that `ConnectWithReconnect` sets
  abbrev pub open_session : Text → Client → Client
  open_session url s = record s {
    reconnect_url = url;
    reconnect_ctx = some s.sessions;
    reconnect_cancel = some s.sessions;
    reconnect_parent_stop = some s.sessions;
    reconnect_wake = some false;
    reconnect_done = some s.sessions;
    sessions = suc s.sessions;
  }

  -- `ConnectWithReconnect` after its call of `Connect`
  unfoldable pub settle_session :
      ℕ → Option Error × Client × List Effect → Option Error × Client × List Effect
  unfolding disable_reconnect
  settle_session n (none, s, fx) = (none, s, fx)
  settle_session n (some e, s, fx) =
      let (_, s', more) = disable_reconnect n s in (some e, s', fx ++ more)

  -- `ConnectWithReconnect`; it makes its session first, and drops it where it refuses.
  unfoldable pub connect_with_reconnect : Text → E (Option Error)
  unfolding settle_session connect
  connect_with_reconnect url s =
      let dropped = stops_parent s.sessions ∷ cancels_reconnect s.sessions ∷ [] in
      let made = record s { sessions = suc s.sessions } in
      if is_empty (trim_space url)
      then (some (plain (text "holon-rpc: url is required")), s, [])
      else if s.closed
      then (some client_is_closed, made, dropped)
      else if is_some s.ws || is_some s.reconnect_ctx
      then (some already_connected, made, dropped)
      else settle_session s.sessions (connect url (open_session url s))

  unfoldable pub redial_result : Dialed → E Attempt
  unfolding reattach
  redial_result (refused e) s = (retries, s, [])
  redial_result (dialed ws protocol) s =
      if text_eq protocol subprotocol then reattach ws s else (retries, s, closes ws ∷ [])

  -- one turn of the inner loop of `reconnectLoop`, up to its delay
  unfoldable pub reconnect_attempt : E Attempt
  unfolding redial_result
  reconnect_attempt s =
      if s.closed
      then (stops, s, [])
      else if is_some s.ws
      then (waits, s, [])
      else redial_result (d.dial s.reconnect_url) (d.meanwhile s)

-- `case <-wake` of `reconnectLoop`, where a signal is there
unfoldable pub take_wake : Client → Client
take_wake s = if is_some s.reconnect_wake then record s { reconnect_wake = some false } else s

module _ (c : Codec) where
  -- `failAllPending`
  unfoldable pub fail_all_pending : Error → Client → Client
  fail_all_pending e s =
      let r : ResponseError = record {
        code = code_unavailable;
        message = error_text c e;
        detail = null;
      } in
      record s { pending = fail_all (error_message [] r) s.pending }

  -- `currentConn`: the connection and its context
  unfoldable pub current_conn : Client → Option ℕ × Option Error
  current_conn s =
      if s.closed
      then (none, some client_is_closed)
      else if not (is_some s.ws) || not (is_some s.cancel) || not (is_some s.rx_ctx)
      then (
        none,
        some (
            if is_some s.reconnect_ctx
            then response (record {
              code = code_unavailable;
              message = error_text c error_connection_closed;
              detail = null;
            })
            else plain (text "holon-rpc: client is not connected")),
      )
      else (s.ws, none)

  -- `reconnectWake <- struct{}{}`, where `onDisconnect` found a session
  abbrev pub wake : Client → Client
  wake s =
      if not s.closed && is_some s.reconnect_ctx && is_some s.reconnect_wake
      then record s { reconnect_wake = some true }
      else s

  -- `onDisconnect`, which the read loop of `ws` runs when it ends
  unfoldable pub on_disconnect : ℕ → E (Unit {0})
  unfolding fail_all_pending
  on_disconnect ws s =
      if is_session ws s.ws
      then (
        tt,
        wake (
            fail_all_pending error_connection_closed
              (record s { ws = none; cancel = none; rx_ctx = none; done = none })),
        effect_of cancels s.cancel,
      )
      else (tt, s, [])

  -- `Close`; `rxCtx` is left as it is.
  unfoldable pub close : Dialer → E (Unit {0})
  unfolding fail_all_pending
  close d s =
      if s.closed
      then (tt, s, [])
      else (let off = record (forget_session s) {
        closed = true;
        ws = none;
        cancel = none;
        done = none;
      } in
          (
            tt,
            fail_all_pending error_connection_closed (d.meanwhile off),
            effect_of cancels s.cancel
                ++ effect_of stops_parent s.reconnect_parent_stop
                ++ effect_of cancels_reconnect s.reconnect_cancel
                ++ effect_of closes s.ws,
          ))
