-- ===== src/Holonrpc/Client/Lives/Loops.antt =====
-- What `reconnectLoop` of pkg/holonrpc/client.go does on every run: the state that it leaves, how
-- long it waits, and how it ends.
use go_holons.Common.{
  ℕ, zero, suc, ◌+◌, ◌≤◌, ◌≡◌, refl, ap, ◌∙◌, List, [], ◌∷◌, ◌++◌, map, Bool, true, false, arith,
  All, length,
}
use go_holons.Holonrpc.Client.Connection.{
  Client, Effect, Attempt, stops, waits, retries, reconnect_attempt, reconnect_base, take_wake,
}
use go_holons.Holonrpc.Client.Loop.{
  Try, Turn, Place, returned, idles, searches, Trace, does, sleeps, closes_done, did, after_sleep,
  after_attempt, after_search, after_wake, reconnect_all, reconnect_loop,
}
use go_holons.Holonrpc.Client.Lives.{IsClient, Keeps, reconnect_attempt-IsClient}
use go_holons.Holonrpc.Client.Lives.Steps.{take_wake-IsClient}

-- What other goroutines do around an attempt keeps the client in order.
abbrev pub KeepsAround : Try → Type 0
KeepsAround t = Keeps t.network × ((s : Client) → IsClient s → IsClient (t.asleep s))

abbrev pub KeepsTurn : Turn → Type 0
KeepsTurn t = ((s : Client) → IsClient s → IsClient (t.idle s)) × All KeepsAround t.tries

reconnect_all-IsClient :
    (n : ℕ) (ts : List Try) (s : Client)
    → All KeepsAround ts
    → IsClient s
    → IsClient (reconnect_all n ts s).1
unfolding reconnect_all
reconnect_all-IsClient n [] s k v = v
reconnect_all-IsClient n (t ∷ ts) s ((net, sleep), k) v =
    let s' = (reconnect_attempt t.network s).1 in
    let v' = reconnect_attempt-IsClient t.network s net v in
    ground (arith, v', sleep s' v', reconnect_all-IsClient (suc n) ts (t.asleep s') k (sleep s' v'))

-- The whole reconnect loop leaves a client in order, if what other goroutines do meanwhile does.
pub reconnect_loop-IsClient :
    (ts : List Turn) (s : Client) → All KeepsTurn ts → IsClient s → IsClient (reconnect_loop ts s).1
unfolding reconnect_loop
reconnect_loop-IsClient [] s k v = v
reconnect_loop-IsClient (t ∷ ts) s ((idle, tries), k) v =
    let v' = idle s v in
    let r = reconnect_all zero t.tries (take_wake (t.idle s)) in
    let w =
      reconnect_all-IsClient zero t.tries (take_wake (t.idle s)) tries
        (take_wake-IsClient (t.idle s) v') in
    ground (arith, v', w, reconnect_loop-IsClient ts r.1 k w)

abbrev pub delays : List Trace → List ℕ
delays [] = []
delays (sleeps d ∷ fx) = d ∷ delays fx
delays (does e ∷ fx) = delays fx
delays (closes_done ∷ fx) = delays fx

abbrev pub endings : List Trace → ℕ
endings [] = 0
endings (closes_done ∷ fx) = suc (endings fx)
endings (does e ∷ fx) = endings fx
endings (sleeps d ∷ fx) = endings fx

-- The delays after the attempts from number `n` on, `k` of them.
abbrev pub ladder : ℕ → ℕ → List ℕ
ladder n zero = []
ladder n (suc k) = reconnect_base n ∷ ladder (suc n) k

delays-does : (es : List Effect) (fx : List Trace) → delays (map does es ++ fx) ≡ delays fx
delays-does [] fx = refl
delays-does (e ∷ es) fx = delays-does es fx

endings-does : (es : List Effect) (fx : List Trace) → endings (map does es ++ fx) ≡ endings fx
endings-does [] fx = refl
endings-does (e ∷ es) fx = endings-does es fx

endings-append : (fx gx : List Trace) → endings (fx ++ gx) ≡ endings fx + endings gx
endings-append [] gx = omega arith
endings-append (closes_done ∷ fx) gx = ground (arith, endings-append fx gx)
endings-append (does e ∷ fx) gx = endings-append fx gx
endings-append (sleeps d ∷ fx) gx = endings-append fx gx

-- The waits of a run are some first steps of the ladder from `n` on.
abbrev Climbs : ℕ → ℕ → Place × Client × List Trace → Type 0
Climbs n most r = (k : ℕ) × (k ≤ most) × (delays r.2 ≡ ladder n k)

after_sleep-Climbs :
    (n : ℕ) (fires : Bool) (s : Client) (fx : List Effect) (m : ℕ)
    (rest : Place × Client × List Trace)
    → Climbs (suc n) m rest
    → Climbs n
        (suc m)
        (did (map does fx) (did (sleeps (reconnect_base n) ∷ []) (after_sleep fires s rest)))
after_sleep-Climbs n true s fx m rest (k, few, climbs) = (
  suc k,
  omega arith,
  delays-does fx (sleeps (reconnect_base n) ∷ rest.2) ∙ ap (λ l. reconnect_base n ∷ l) climbs,
)
after_sleep-Climbs n false s fx m rest c =
    (1, omega arith, delays-does fx (sleeps (reconnect_base n) ∷ closes_done ∷ []))

after_attempt-Climbs :
    (n : ℕ) (t : Try) (a : Attempt) (s : Client) (fx : List Effect) (m : ℕ)
    (rest : Place × Client × List Trace)
    → Climbs (suc n) m rest
    → Climbs n (suc m) (did (map does fx) (after_attempt n t a s rest))
after_attempt-Climbs n t stops s fx m rest c = (0, omega arith, delays-does fx (closes_done ∷ []))
after_attempt-Climbs n t waits s fx m rest c = (0, omega arith, delays-does fx [])
after_attempt-Climbs n t retries s fx m rest c =
    after_sleep-Climbs n t.fires (t.asleep s) fx m rest c

-- The delays that a search waits for are, in order, those of its attempts from its first number on,
-- at most one for each attempt: none is skipped, repeated or shuffled.
pub reconnect_all-delays :
    (n : ℕ) (ts : List Try) (s : Client)
    → (k : ℕ) × (k ≤ length ts) × (delays (reconnect_all n ts s).2 ≡ ladder n k)
unfolding reconnect_all
reconnect_all-delays n [] s = (0, omega arith, refl)
reconnect_all-delays n (t ∷ ts) s =
    let (a, s', fx) = reconnect_attempt t.network s in
    after_attempt-Climbs n t a s' fx (length ts) (reconnect_all (suc n) ts (t.asleep s'))
      (reconnect_all-delays (suc n) ts (t.asleep s'))

-- How often a run has closed the channel of its session by then.
abbrev pub ends_of : Place → ℕ
ends_of returned = 1
ends_of idles = 0
ends_of searches = 0

abbrev Ends : Place × Client × List Trace → Type 0
Ends r = endings r.2 ≡ ends_of r.0

after_sleep-Ends :
    (fires : Bool) (s : Client) (rest : Place × Client × List Trace)
    → Ends rest
    → Ends (after_sleep fires s rest)
after_sleep-Ends true s rest e = e
after_sleep-Ends false s rest e = refl

after_attempt-Ends :
    (n : ℕ) (t : Try) (a : Attempt) (s : Client) (rest : Place × Client × List Trace)
    → Ends rest
    → Ends (after_attempt n t a s rest)
after_attempt-Ends n t stops s rest e = refl
after_attempt-Ends n t waits s rest e = refl
after_attempt-Ends n t retries s rest e = after_sleep-Ends t.fires (t.asleep s) rest e

reconnect_all-Ends : (n : ℕ) (ts : List Try) (s : Client) → Ends (reconnect_all n ts s)
unfolding reconnect_all
reconnect_all-Ends n [] s = refl
reconnect_all-Ends n (t ∷ ts) s =
    let (a, s', fx) = reconnect_attempt t.network s in
    let rest = reconnect_all (suc n) ts (t.asleep s') in
    endings-does fx (after_attempt n t a s' rest).2
    ∙ after_attempt-Ends n t a s' rest (reconnect_all-Ends (suc n) ts (t.asleep s'))

after_search-Ends :
    (p : Place) (s : Client) (fx : List Trace) (rest : Place × Client × List Trace)
    → Ends (p, s, fx)
    → Ends rest
    → Ends (did fx (after_search p s rest))
after_search-Ends returned s fx rest e h = omega (arith, endings-append fx [], e)
after_search-Ends idles s fx rest e h = omega (arith, endings-append fx rest.2, e, h)
after_search-Ends searches s fx rest e h = omega (arith, endings-append fx [], e)

after_wake-Ends :
    (woken : Bool) (s : Client) (rest : Place × Client × List Trace)
    → Ends rest
    → Ends (after_wake woken s rest)
after_wake-Ends true s rest e = e
after_wake-Ends false s rest e = refl

-- On any run, the loop closes the channel that `Close` waits for exactly once if it returns, and not
-- at all while it runs.
pub reconnect_loop-closes_done :
    (ts : List Turn) (s : Client)
    → endings (reconnect_loop ts s).2 ≡ ends_of (reconnect_loop ts s).0
unfolding reconnect_loop
reconnect_loop-closes_done [] s = refl
reconnect_loop-closes_done (t ∷ ts) s =
    let (p, s', fx) = reconnect_all zero t.tries (take_wake (t.idle s)) in
    let rest = reconnect_loop ts s' in
    after_wake-Ends t.woken (t.idle s) (did fx (after_search p s' rest)) (
      after_search-Ends p s' fx rest (reconnect_all-Ends zero t.tries (take_wake (t.idle s)))
        (reconnect_loop-closes_done ts s'))

closed_attempt :
    (t : Try) (ts : List Try) (s : Client)
    → s.closed ≡ true
    → reconnect_all zero (t ∷ ts) s ≡ (returned, s, closes_done ∷ [])
unfolding reconnect_all reconnect_attempt
closed_attempt t ts s e = rw e refl

take_wake_rest : (s : Client) → ((take_wake s).closed ≡ s.closed) × ((take_wake s).ws ≡ s.ws)
unfolding take_wake
take_wake_rest s = (ground arith, ground arith)

-- Returned at once, with the connection as it was.
abbrev Quits : Client → Place × Client × List Trace → Type 0
Quits s r = (r.0 ≡ returned) × (r.2 ≡ closes_done ∷ []) × (r.1.ws ≡ s.ws)

after_wake-Quits :
    (woken : Bool) (s : Client) (rest : Place × Client × List Trace)
    → Quits s rest
    → Quits s (after_wake woken s rest)
after_wake-Quits true s rest q = q
after_wake-Quits false s rest q = (refl, refl, refl)

-- The loop ends: once the client is closed, its next turn, with at least one attempt to come, makes
-- it return, whether it is woken or its context ended: without a dial, without a delay, and with the
-- connection as it was.
pub reconnect_loop-returns :
    (t : Turn) (first : Try) (more : List Try) (ts : List Turn) (s : Client)
    → t.tries ≡ first ∷ more
    → (t.idle s).closed ≡ true
    → let r = reconnect_loop (t ∷ ts) s in
      (r.0 ≡ returned) × (r.2 ≡ closes_done ∷ []) × (r.1.ws ≡ (t.idle s).ws)
unfolding reconnect_loop
reconnect_loop-returns t first more ts s e closed =
    let x = t.idle s in
    let search = reconnect_all zero t.tries (take_wake x) in
    let (same_closed, same_ws) = take_wake_rest x in
    let quits : search ≡ (returned, take_wake x, closes_done ∷ []) =
      ap (λ l. reconnect_all zero l (take_wake x)) e
      ∙ closed_attempt first more (take_wake x) (same_closed ∙ closed) in
    after_wake-Quits t.woken x
      (did search.2 (after_search search.0 search.1 (reconnect_loop ts search.1)))
      (rw quits (refl, refl, same_ws))
