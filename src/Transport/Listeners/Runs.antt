-- ===== src/Transport/Listeners/Runs.antt =====
-- Histories of the listeners of pkg/transport: upgrades, `Accept`s and a `Close` in any order.
use go_holons.Common.{
  ℕ, ◌≤◌, ◌≡◌, ◌≢◌, refl, sym, ap, ◌∙◌, Option, none, some, List, [], ◌∷◌, ◌++◌, Bool, true, false,
  ltb, length, length-append, arith, if◌then◌else◌, if-cases,
}
use mathlib.Core.List.{append-nil, append_assoc}
use go_holons.Common.Text.{Text, text}
use go_holons.Transport.Listeners.{
  Accepted, connection, blocked, StdioListener, new_stdio_listener, stdio_shutdown, stdio_accept,
  WsListener, ws_queue_limit, WsOutcome, queued, dropped, delivered, ended, waits, rejected,
  handle_upgrade, ws_upgrade, ws_accept, ws_close, ws_receive,
}

-- One step of a goroutine at a `wsListener`; `on_done` is the choice of its `select`.
pub data WsStep : Type 0 where
  upgrades : (on_done : Bool) → Option ℕ → WsStep
  accepts : (on_done : Bool) → WsStep
  closes : WsStep

unfoldable pub ws_step : WsStep → WsListener → List WsOutcome × WsListener
ws_step (upgrades d o) l = let (o, l') = handle_upgrade d o l in (o ∷ [], l')
ws_step (accepts d) l = let (o, l') = ws_accept d l in (o ∷ [], l')
ws_step closes l = ([], ws_close l)

unfoldable pub ws_run : List WsStep → WsListener → List WsOutcome × WsListener
unfolding ws_step
ws_run [] l = ([], l)
ws_run (s ∷ ss) l =
    let (os, l') = ws_step s l in let (more, l'') = ws_run ss l' in (os ++ more, l'')

-- The connections that were queued, and those that were delivered, in order.
abbrev pub queued_in : List WsOutcome → List ℕ
queued_in [] = []
queued_in (queued conn ∷ os) = conn ∷ queued_in os
queued_in (_ ∷ os) = queued_in os

abbrev pub delivered_in : List WsOutcome → List ℕ
delivered_in [] = []
delivered_in (delivered conn ∷ os) = conn ∷ delivered_in os
delivered_in (_ ∷ os) = delivered_in os

-- One step keeps the account.
abbrev Balanced : WsListener → List WsOutcome × WsListener → Type 0
Balanced l (os, l') =
    (delivered_in os ++ l'.queue ≡ l.queue ++ queued_in os)
    × (length l.queue ≤ ws_queue_limit → length l'.queue ≤ ws_queue_limit)
    × (l.closed ≡ true → l'.closed ≡ true)

-- The same for the one outcome of an upgrade or an `Accept`.
abbrev Kept : WsListener → WsOutcome × WsListener → Type 0
Kept l (o, l') = Balanced l (o ∷ [], l')

dropped-Kept : (l : WsListener) (conn : ℕ) → Kept l (dropped conn, l)
dropped-Kept l conn = (sym (append-nil l.queue), (λ h. h), λ h. h)

waits-Kept : (l : WsListener) → Kept l (waits, l)
waits-Kept l = (sym (append-nil l.queue), (λ h. h), λ h. h)

ended-Kept : (l : WsListener) → Kept l (ended, l)
ended-Kept l = (sym (append-nil l.queue), (λ h. h), λ h. h)

rejected-Kept : (l : WsListener) (n : ℕ) (t : Text) → Kept l (rejected n t, l)
rejected-Kept l n t = (sym (append-nil l.queue), (λ h. h), λ h. h)

queued-Kept :
    (l : WsListener) (conn : ℕ)
    → ltb (length l.queue) ws_queue_limit ≡ true
    → Kept l (queued conn, record l { queue = l.queue ++ conn ∷ [] })
queued-Kept l conn room = (refl, (λ h. ground (arith, length-append l.queue (conn ∷ []))), λ h. h)

ws_upgrade-Kept : (d : Bool) (conn : ℕ) (l : WsListener) → Kept l (ws_upgrade d conn l)
unfolding ws_upgrade
ws_upgrade-Kept d conn l =
    let offered =
      if-cases (Kept l) (ltb (length l.queue) ws_queue_limit) _ _ (queued-Kept l conn)
        λ _. if-cases (Kept l) l.closed _ _ (λ _. dropped-Kept l conn) (λ _. waits-Kept l) in
    if-cases (Kept l) l.closed _ _
      (λ _. if-cases (Kept l) d _ _ (λ _. dropped-Kept l conn) (λ _. offered)) (λ _. offered)

ws_receive-Kept : (q : List ℕ) (l : WsListener) → l.queue ≡ q → Kept l (ws_receive q l)
ws_receive-Kept (conn ∷ rest) l e =
    (sym e ∙ sym (append-nil l.queue), (λ h. ground (arith, e)), λ h. h)
ws_receive-Kept [] l e = ended_or_waits l.closed
  where
    ended_or_waits : (b : Bool) → Kept l (if b then ended else waits, l)
    ended_or_waits true = ended-Kept l
    ended_or_waits false = waits-Kept l

ws_accept-Kept : (d : Bool) (l : WsListener) → Kept l (ws_accept d l)
unfolding ws_accept
ws_accept-Kept d l =
    let received = ws_receive-Kept l.queue l refl in
    if-cases (Kept l) l.closed _ _
      (λ _. if-cases (Kept l) d _ _ (λ _. ended-Kept l) (λ _. received)) (λ _. received)

ws_step-Balanced : (s : WsStep) (l : WsListener) → Balanced l (ws_step s l)
unfolding ws_step ws_close handle_upgrade
ws_step-Balanced (upgrades d none) l = rejected-Kept l 400 (text "websocket upgrade failed")
ws_step-Balanced (upgrades d (some conn)) l = ws_upgrade-Kept d conn l
ws_step-Balanced (accepts d) l = ws_accept-Kept d l
ws_step-Balanced closes l = (sym (append-nil l.queue), (λ h. h), λ h. refl)

delivered_in-append :
    (a b : List WsOutcome) → delivered_in (a ++ b) ≡ delivered_in a ++ delivered_in b
delivered_in-append [] b = refl
delivered_in-append (queued conn ∷ a) b = delivered_in-append a b
delivered_in-append (dropped conn ∷ a) b = delivered_in-append a b
delivered_in-append (delivered conn ∷ a) b = ap (λ l. conn ∷ l) (delivered_in-append a b)
delivered_in-append (ended ∷ a) b = delivered_in-append a b
delivered_in-append (waits ∷ a) b = delivered_in-append a b
delivered_in-append (rejected n t ∷ a) b = delivered_in-append a b

queued_in-append : (a b : List WsOutcome) → queued_in (a ++ b) ≡ queued_in a ++ queued_in b
queued_in-append [] b = refl
queued_in-append (queued conn ∷ a) b = ap (λ l. conn ∷ l) (queued_in-append a b)
queued_in-append (dropped conn ∷ a) b = queued_in-append a b
queued_in-append (delivered conn ∷ a) b = queued_in-append a b
queued_in-append (ended ∷ a) b = queued_in-append a b
queued_in-append (waits ∷ a) b = queued_in-append a b
queued_in-append (rejected n t ∷ a) b = queued_in-append a b

regroup :
    (d1 d2 q2 q q1 i1 i2 : List ℕ)
    → d1 ++ q1 ≡ q ++ i1
    → d2 ++ q2 ≡ q1 ++ i2
    → (d1 ++ d2) ++ q2 ≡ q ++ (i1 ++ i2)
regroup d1 d2 q2 q q1 i1 i2 e f =
    append_assoc d1 d2 q2
    ∙ ap (λ t. d1 ++ t) f
    ∙ sym (append_assoc d1 q1 i2)
    ∙ ap (λ t. t ++ i2) e
    ∙ append_assoc q i1 i2

-- In any history of a WebSocket listener, what is delivered, followed by what is still queued, is
-- what was queued before followed by what the history queued: each connection that is queued is
-- delivered at most once, in order of arrival, and none is lost. The queue never outgrows its
-- limit of 16, and a closed listener stays closed.
pub ws_run-fifo :
    (ss : List WsStep) (l : WsListener)
    → length l.queue ≤ ws_queue_limit
    → let r = ws_run ss l in
      (delivered_in r.0 ++ r.1.queue ≡ l.queue ++ queued_in r.0)
      × (length r.1.queue ≤ ws_queue_limit)
      × (l.closed ≡ true → r.1.closed ≡ true)
unfolding ws_run
ws_run-fifo [] l h = (sym (append-nil l.queue), h, λ c. c)
ws_run-fifo (s ∷ ss) l h =
    let (os, l') = ws_step s l in
    let (account, room, stays) = ws_step-Balanced s l in
    let (accounts, rooms, stay) = ws_run-fifo ss (ws_step s l).1 (room h) in
    (
      rw (delivered_in-append os (ws_run ss l').0, queued_in-append os (ws_run ss l').0)
          (regroup (delivered_in os) (delivered_in (ws_run ss l').0) (ws_run ss l').1.queue l.queue
            l'.queue (queued_in os) (queued_in (ws_run ss l').0) account accounts),
      rooms,
      λ c. stay (stays c),
    )

-- What a sequence of `Accept`s, closes and shutdowns of a stdio listener delivers.
pub data StdioStep : Type 0 where
  accepts_stdio : (on_done : Bool) → StdioStep
  shuts : StdioStep

abbrev pub connections : Accepted → List ℕ
connections (connection conn) = conn ∷ []
connections _ = []

unfoldable pub stdio_run : List StdioStep → StdioListener → List ℕ × StdioListener
stdio_run [] l = ([], l)
stdio_run (accepts_stdio d ∷ ss) l =
    let (a, l') = stdio_accept d l in
    let (more, l'') = stdio_run ss l' in (connections a ++ more, l'')
stdio_run (shuts ∷ ss) l = stdio_run ss (stdio_shutdown l)

-- The connection that the listener holds, as a list.
abbrev pub held : Option ℕ → List ℕ
held none = []
held (some conn) = conn ∷ []

stdio_accept-held :
    (d : Bool) (l : StdioListener)
    → let r = stdio_accept d l in connections r.0 ++ held r.1.buffered ≡ held l.buffered
unfolding stdio_accept
stdio_accept-held d l = ground arith

stdio_run-held :
    (ss : List StdioStep) (l : StdioListener)
    → (stdio_run ss l).0 ++ held (stdio_run ss l).1.buffered ≡ held l.buffered
unfolding stdio_run stdio_shutdown
stdio_run-held [] l = refl
stdio_run-held (shuts ∷ ss) l = stdio_run-held ss (stdio_shutdown l)
stdio_run-held (accepts_stdio d ∷ ss) l =
    let (a, l') = stdio_accept d l in
    append_assoc (connections a) (stdio_run ss l').0 (held (stdio_run ss l').1.buffered)
    ∙ ap (λ t. connections a ++ t) (stdio_run-held ss l')
    ∙ stdio_accept-held d l

stdio_accept-shut : (d : Bool) (l : StdioListener) → l.shut ≡ true → (stdio_accept d l).0 ≢ blocked
unfolding stdio_accept
stdio_accept-shut d l shut = ground (arith, shut)

-- Whatever `Accept`s and closes follow one another, a stdio listener delivers its one connection or
-- still holds it: it is delivered at most once, and nothing else is. Once the listener is shut, no
-- `Accept` blocks.
pub stdio_run-once :
    (ss : List StdioStep) (conn : ℕ)
    → let r = stdio_run ss (new_stdio_listener conn) in
      (r.0 ++ held r.1.buffered ≡ conn ∷ [])
      × (r.1.shut ≡ true → (d : Bool) → (stdio_accept d r.1).0 ≢ blocked)
stdio_run-once ss conn =
    let l = new_stdio_listener conn in
    (stdio_run-held ss l, λ shut d. stdio_accept-shut d (stdio_run ss l).1 shut)
