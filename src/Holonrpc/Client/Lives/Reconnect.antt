-- ===== src/Holonrpc/Client/Lives/Reconnect.antt =====
-- How `reconnectLoop` of pkg/holonrpc/client.go gets a lost connection back.
use go_holons.Common.{
  ℕ, suc, ◌≡◌, refl, ◌⊎◌, inl, inr, none, some, List, [], ◌∷◌, ◌++◌, true, false, arith, is_some,
  All, if-cases, ==_iff,
}
use go_holons.Common.Text.{Text, text_eq, text_eq_refl}
use go_holons.Holonrpc.Message.{Codec}
use go_holons.Holonrpc.Client.Connection.{
  Client, Effect, Dialed, refused, dialed, Dialer, Attempt, waits, retries, connected, reattach,
  redial_result, reconnect_attempt, on_disconnect, subprotocol, fail_all_pending, take_wake,
}
use go_holons.Holonrpc.Client.Loop.{Try, Turn, idles, reconnect_all, reconnect_loop}
use go_holons.Holonrpc.Client.Lives.{IsClient}

-- A dial that fails, or that does not get the subprotocol.
abbrev pub IsRefused : Dialed → Type 0
IsRefused (refused e) = Unit {0}
IsRefused (dialed ws protocol) = text_eq protocol subprotocol ≡ false

-- Nobody closes the client meanwhile.
abbrev pub KeepsOpen : Dialer → Type 0
KeepsOpen d = (s : Client) → s.closed ≡ false → (d.meanwhile s).closed ≡ false

abbrev pub IsDown : Dialer → Type 0
IsDown d = ((url : Text) → IsRefused (d.dial url)) × KeepsOpen d

abbrev pub IsUp : Dialer → Type 0
IsUp d = ((url : Text) → (ws : ℕ) × (d.dial url ≡ dialed ws subprotocol)) × KeepsOpen d

-- An attempt finds the client connected, or leaves it open to the next one.
abbrev Settled : Attempt × Client × List Effect → Type 0
Settled (a, s, fx) = (a ≡ waits) × (connected s ≡ true)

abbrev StillOpen : Attempt × Client × List Effect → Type 0
StillOpen (a, s, fx) = (a ≡ retries) × (s.closed ≡ false)

redial_refused :
    (d : Dialer) (r : Dialed) (s : Client)
    → IsRefused r
    → s.closed ≡ false
    → StillOpen (redial_result d r s)
unfolding redial_result
redial_refused d (refused e) s h is_open = (refl, is_open)
redial_refused d (dialed ws protocol) s h is_open = rw h (refl, is_open)

attempt_down :
    (d : Dialer) (s : Client)
    → IsDown d
    → s.closed ≡ false
    → Settled (reconnect_attempt d s) ⊎ StillOpen (reconnect_attempt d s)
unfolding reconnect_attempt connected
attempt_down d s (down, keeps) is_open =
    if-cases (λ (r : Attempt × Client × List Effect). Settled r ⊎ StillOpen r) s.closed _ _
      (λ h. cc)
      λ _.
        if-cases (λ (r : Attempt × Client × List Effect). Settled r ⊎ StillOpen r) (is_some s.ws) _
          _ (λ there. inl (refl, ground (arith, is_open, there)))
          λ _. inr (
            redial_refused d (d.dial s.reconnect_url) (d.meanwhile s) (down s.reconnect_url)
              (keeps s is_open))

redial_reached :
    (d : Dialer) (ws : ℕ) (s : Client)
    → s.closed ≡ false
    → Settled (redial_result d (dialed ws subprotocol) s)
unfolding redial_result reattach connected
redial_reached d ws s is_open = rw (text_eq_refl subprotocol) (ground (arith, is_open))

attempt_up : (d : Dialer) (s : Client) → IsUp d → s.closed ≡ false → Settled (reconnect_attempt d s)
unfolding reconnect_attempt connected
attempt_up d s (up, keeps) is_open =
    if-cases Settled s.closed _ _ (λ h. cc)
      λ _.
        if-cases Settled (is_some s.ws) _ _ (λ there. (refl, ground (arith, is_open, there)))
          λ _.
            rw ((up s.reconnect_url).1)
              (redial_reached d (up s.reconnect_url).0 (d.meanwhile s) (keeps s is_open))

-- An attempt that fails, after which the timer fires and nobody closed the client.
abbrev pub IsLost : Try → Type 0
IsLost t =
    IsDown t.network
    × (t.fires ≡ true)
    × ((s : Client) → s.closed ≡ false → (t.asleep s).closed ≡ false)

-- An open client gets its connection back: after any number of attempts that fail, the first one
-- that reaches the server, or a connection that is there by then, ends the search of the loop, with
-- the client connected.
pub reconnect_all-connects :
    (n : ℕ) (before after : List Try) (t : Try) (s : Client)
    → All IsLost before
    → IsUp t.network
    → s.closed ≡ false
    → let r = reconnect_all n (before ++ t ∷ after) s in (r.0 ≡ idles) × (connected r.1 ≡ true)
unfolding reconnect_all
reconnect_all-connects n [] after t s losts up is_open =
    let (waiting, there) = attempt_up t.network s up is_open in rw waiting (refl, there)
reconnect_all-connects n (b ∷ before) after t s ((down, fires, keeps), losts) up is_open =
    elim (attempt_down b.network s down is_open) [
      | inl (waiting, there) ↦ rw waiting (refl, there)
      | inr (retrying, still) ↦
          rw (retrying, fires)
            (reconnect_all-connects (suc n) before after t
              (b.asleep (reconnect_attempt b.network s).1) losts up (keeps _ still))
    ]

-- The loop is told: where the client loses its connection while it has a session, the read loop
-- leaves a signal for the reconnect loop.
pub on_disconnect-wakes :
    (c : Codec) (ws : ℕ) (s : Client)
    → IsClient s
    → s.closed ≡ false
    → s.ws ≡ some ws
    → is_some s.reconnect_ctx ≡ true
    → ((on_disconnect c ws s).1.reconnect_wake ≡ some true) × ((on_disconnect c ws s).1.ws ≡ none)
unfolding on_disconnect fail_all_pending
on_disconnect-wakes c ws s v is_open lost session =
    ground (arith, lost, session, is_open, v.waking, ==_iff ws ws)

on_disconnect_open :
    (c : Codec) (ws : ℕ) (s : Client)
    → s.closed ≡ false
    → (take_wake (on_disconnect c ws s).1).closed ≡ false
unfolding on_disconnect fail_all_pending take_wake
on_disconnect_open c ws s is_open = ground (arith, is_open)

-- A lost connection comes back: where an open client in order loses its connection while it has a
-- session, the read loop leaves a signal for the reconnect loop; woken by it, after any number of
-- attempts that fail and one that reaches the server, the loop waits again, with the client
-- connected.
pub loss-recovers :
    (c : Codec) (ws : ℕ) (before after : List Try) (t : Try) (s : Client)
    → IsClient s
    → s.closed ≡ false
    → s.ws ≡ some ws
    → is_some s.reconnect_ctx ≡ true
    → All IsLost before
    → IsUp t.network
    → let lost = (on_disconnect c ws s).1 in
      let turn : Turn = record { woken = true; idle = λ x. x; tries = before ++ t ∷ after } in
      let r = reconnect_loop (turn ∷ []) lost in
      (lost.ws ≡ none) × (lost.reconnect_wake ≡ some true) × (r.0 ≡ idles) × (connected r.1 ≡ true)
unfolding reconnect_loop
loss-recovers c ws before after t s v is_open lost session losts up =
    let (waking, gone) = on_disconnect-wakes c ws s v is_open lost session in
    let (waiting, there) =
      reconnect_all-connects 0 before after t (take_wake (on_disconnect c ws s).1) losts up
        (on_disconnect_open c ws s is_open) in
    (gone, waking, rw waiting refl, rw waiting there)
