-- ===== src/Holonrpc/Client/Loop.antt =====
-- `reconnectLoop` of pkg/holonrpc/client.go: the goroutine of a reconnect session, over what it
-- meets. The attempts of its inner loop are in Connection.
use go_holons.Common.{ℕ, zero, suc, List, [], ◌∷◌, ◌++◌, map, Bool, true, false}
use go_holons.Holonrpc.Client.Connection.{
  Client, Effect, Dialer, Attempt, stops, waits, retries, reconnect_base, reconnect_attempt,
  take_wake,
}

-- One attempt and the `select` after it: the network, whether the timer fires before the session's
-- context ends, and what other goroutines do meanwhile.
pub record Try : Type 0 where
  pub network : Dialer
  pub fires : Bool
  pub asleep : Client → Client

-- One turn of the outer loop: whether it is woken before the session's context ends, what other
-- goroutines do until then, and the attempts that follow.
pub record Turn : Type 0 where
  pub woken : Bool
  pub idle : Client → Client
  pub tries : List Try

-- Where the loop is: it has returned, it stands at the outer `select`, or before its next attempt.
pub data Place : Type 0 where
  returned idles searches : Place

-- What it did: to connections, the delays that it waited for, and the end of its own channel.
pub data Trace : Type 0 where
  does : Effect → Trace
  sleeps : ℕ → Trace
  closes_done : Trace

-- the deferred `close(done)`
abbrev pub return : Client → Place × Client × List Trace
return s = (returned, s, closes_done ∷ [])

abbrev pub did : List Trace → Place × Client × List Trace → Place × Client × List Trace
did fx r = (r.0, r.1, fx ++ r.2)

-- the `select` on the timer
abbrev pub after_sleep : Bool → Client → Place × Client × List Trace → Place × Client × List Trace
after_sleep true s rest = rest
after_sleep false s rest = return s

-- the end of an attempt of that number
abbrev pub after_attempt :
    ℕ → Try → Attempt → Client → Place × Client × List Trace → Place × Client × List Trace
after_attempt n t stops s rest = return s
after_attempt n t waits s rest = (idles, s, [])
after_attempt n t retries s rest =
    did (sleeps (reconnect_base n) ∷ []) (after_sleep t.fires (t.asleep s) rest)

-- the inner loop, from an attempt of that number on
unfoldable pub reconnect_all : ℕ → List Try → Client → Place × Client × List Trace
reconnect_all n [] s = (searches, s, [])
reconnect_all n (t ∷ ts) s =
    let (a, s', fx) = reconnect_attempt t.network s in
    let rest = reconnect_all (suc n) ts (t.asleep s') in
    did (map does fx) (after_attempt n t a s' rest)

-- the end of a search
abbrev pub after_search : Place → Client → Place × Client × List Trace → Place × Client × List Trace
after_search returned s rest = (returned, s, [])
after_search searches s rest = (searches, s, [])
after_search idles s rest = rest

abbrev pub after_wake : Bool → Client → Place × Client × List Trace → Place × Client × List Trace
after_wake false s rest = return s
after_wake true s rest = rest

-- `reconnectLoop`
unfoldable pub reconnect_loop : List Turn → Client → Place × Client × List Trace
unfolding reconnect_all
reconnect_loop [] s = (idles, s, [])
reconnect_loop (t ∷ ts) s =
    let (p, s', fx) = reconnect_all zero t.tries (take_wake (t.idle s)) in
    let rest = reconnect_loop ts s' in
    after_wake t.woken (t.idle s) (did fx (after_search p s' rest))
