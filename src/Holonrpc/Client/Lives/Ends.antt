-- ===== src/Holonrpc/Client/Lives/Ends.antt =====
-- When a client is connected, and when it is closed: `Connect`, `Connected`, `Close`,
-- `currentConn`, an attempt of `reconnectLoop` and `reconnectDelay`, of pkg/holonrpc/client.go.
use go_holons.Common.{
  ℕ, zero, suc, ◌^◌, ◌≤◌, ◌≡◌, ◌≢◌, refl, ◌⊎◌, none, some, List, [], true, false, arith, if-cases,
}
use go_holons.Common.Text.{Text}
use go_holons.Holonrpc.Message.{Codec}
use go_holons.Holonrpc.Client.Connection.{
  Client, Effect, Dialer, stops, waits, client_is_closed, attach, connected, reattach,
  reconnect_base, dial_result, connect, redial_result, reconnect_attempt, fail_all_pending,
  current_conn, close,
}
use go_holons.Holonrpc.Client.Lives.{IsClient}

-- What other goroutines do while `Close` waits does not open the client again.
abbrev pub StaysClosed : Dialer → Type 0
StaysClosed d = (s : Client) → s.closed ≡ true → (d.meanwhile s).closed ≡ true

close-closed : (c : Codec) (d : Dialer) (s : Client) → StaysClosed d → (close c d s).1.closed ≡ true
unfolding close fail_all_pending
close-closed c d s k =
    if-cases (λ (r : Unit {0} × Client × List Effect). r.1.closed ≡ true) s.closed _ _
      (λ shut. shut) (λ _. k _ refl)

connect-closed :
    (d : Dialer) (url : Text) (s : Client)
    → s.closed ≡ true
    → ((connect d url s).0 ≢ none) × ((connect d url s).1 ≡ s)
unfolding connect
connect-closed d url s shut = ground (arith)

closed-final :
    (c : Codec) (later : Dialer) (url : Text) (s : Client)
    → s.closed ≡ true
    → (connected s ≡ false)
      × ((connect later url s).0 ≢ none)
      × ((connect later url s).1 ≡ s)
      × (current_conn c s ≡ (none, some client_is_closed))
      × (close c later s ≡ (tt, s, []))
unfolding connected current_conn close
closed-final c later url s shut = (
  ground (arith, shut),
  (connect-closed later url s shut).0,
  (connect-closed later url s shut).1,
  ground (arith, shut),
  ground (arith, shut),
)

-- `Close` is final: after it the client is not connected, `Connect` fails and changes nothing,
-- `currentConn`, with which `Invoke` starts, says that the client is closed, and `Close` does
-- nothing more.
pub close_client_final :
    (c : Codec) (d later : Dialer) (url : Text) (s : Client)
    → StaysClosed d
    → let s' = (close c d s).1 in
      (connected s' ≡ false)
      × ((connect later url s').0 ≢ none)
      × ((connect later url s').1 ≡ s')
      × (current_conn c s' ≡ (none, some client_is_closed))
      × (close c later s' ≡ (tt, s', []))
close_client_final c d later url s k =
    closed-final c later url (close c d s).1 (close-closed c d s k)

-- An open client in order is connected exactly where `currentConn` gives a connection.
pub current_conn-connected :
    (c : Codec) (s : Client)
    → IsClient s
    → ((connected s ≡ true) × (current_conn c s ≡ (s.ws, none)))
      ⊎ ((connected s ≡ false) × ((current_conn c s).0 ≡ none) × ((current_conn c s).1 ≢ none))
unfolding connected current_conn
current_conn-connected c s v = ground (arith, v.canceling, v.receiving)

-- Where `Connect` reports no error, the client is connected afterwards.
pub connect-connected :
    (d : Dialer) (url : Text) (s : Client)
    → (connect d url s).0 ≡ none
    → connected (connect d url s).1 ≡ true
unfolding connect dial_result attach connected
connect-connected d url s e = ground (arith, e)

-- The reconnect loop waits for the next disconnect only while the client is connected, and
-- returns only where it is closed.
pub reconnect_attempt-settles :
    (d : Dialer) (s : Client)
    → ((reconnect_attempt d s).0 ≡ waits → connected (reconnect_attempt d s).1 ≡ true)
      × ((reconnect_attempt d s).0 ≡ stops → (reconnect_attempt d s).1.closed ≡ true)
unfolding reconnect_attempt redial_result reattach connected
reconnect_attempt-settles d s = (ground arith, ground arith)

pow-pos : (n : ℕ) → 1 ≤ 2 ^ n
pow-pos zero = omega arith
pow-pos (suc n) = omega (arith, pow-pos n)

-- The delay before a reconnect is from half a second to thirty, before the jitter, and never
-- shrinks from one attempt to the next.
pub reconnect_base-bounds :
    (n : ℕ)
    → (500000000 ≤ reconnect_base n)
      × (reconnect_base n ≤ 30000000000)
      × (reconnect_base n ≤ reconnect_base (suc n))
unfolding reconnect_base
reconnect_base-bounds n = ground (arith, pow-pos n)
