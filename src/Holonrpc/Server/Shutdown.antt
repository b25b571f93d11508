-- ===== src/Holonrpc/Server/Shutdown.antt =====
-- The end of a server: `Close` of pkg/holonrpc/server.go, what `Start` does after it, and what
-- becomes of a listener that `Start` has opened.
use go_holons.Common.{
  ℕ, ◌≡◌, refl, ◌∙◌, ◌⊎◌, inl, inr, Option, none, some, List, [], ◌∷◌, true, false, arith, if-cases,
  Bool-cases,
}
use go_holons.Common.Text.{Text, text_eq}
use go_holons.Common.Map.{Map, lookup}
use go_holons.Holonrpc.Message.{Codec, Error}
use go_holons.Holonrpc.Pending.{fail_all}
use go_holons.Holonrpc.Server.State.{Server, Peer}
use go_holons.Holonrpc.Server.Lifecycle.{
  Net, failed, server_is_closed, Closing, closes_listener, closes_server, bind, start, close,
  shut_down, drop_peers,
}

drop_peers-closed :
    (c : Codec) (n : Net) (m : Map ℕ) (s : Server) → (drop_peers c n m s).closed ≡ s.closed
unfolding drop_peers
drop_peers-closed c n [] s = refl
drop_peers-closed c n ((id, ptr) ∷ m) s = drop_peers-closed c n m _

drop_peers-peers :
    (c : Codec) (n : Net) (m : Map ℕ) (s : Server) → (drop_peers c n m s).peers ≡ s.peers
unfolding drop_peers
drop_peers-peers c n [] s = refl
drop_peers-peers c n ((id, ptr) ∷ m) s = drop_peers-peers c n m _

-- What runs between the two locked sections of `Close` does not open the server again.
abbrev pub KeepsClosed : Net → Type 0
KeepsClosed n = (s : Server) → s.closed ≡ true → (n.meanwhile s).closed ≡ true

close-closed : (c : Codec) (n : Net) (s : Server) → KeepsClosed n → (close c n s).1.closed ≡ true
unfolding close
close-closed c n s k =
    let s' = n.meanwhile (shut_down c n s) in
    if-cases (λ (r : Option Error × Server × List Closing). r.1.closed ≡ true) s.closed _ _
      (λ shut. shut) λ _. drop_peers-closed c n s'.peers _ ∙ k (shut_down c n s) refl

start-closed :
    (c : Codec) (n : Net) (s : Server)
    → s.closed ≡ true
    → start c n s ≡ (failed server_is_closed, s, [])
unfolding start
start-closed c n s shut =
    if-cases (λ r. r ≡ (failed server_is_closed, s, [])) s.closed _ _ (λ _. refl) λ serving. cc

close-closed_again :
    (c : Codec) (n : Net) (s : Server) → s.closed ≡ true → close c n s ≡ (none, s, [])
unfolding close
close-closed_again c n s shut =
    if-cases (λ r. r ≡ (none, s, [])) s.closed _ _ (λ _. refl) λ serving. cc

-- `Close` is final, where what runs during its shutdown does not open the server again: after it
-- `Start` fails, `Close` does nothing, and neither changes the server.
pub close_final :
    (c : Codec) (n later : Net) (s : Server)
    → KeepsClosed n
    → (start c later (close c n s).1 ≡ (failed server_is_closed, (close c n s).1, []))
      × (close c later (close c n s).1 ≡ (none, (close c n s).1, []))
close_final c n later s k =
    let s' = (close c n s).1 in
    (
      start-closed c later s' (close-closed c n s k),
      close-closed_again c later s' (close-closed c n s k),
    )

-- A peer that has been dropped: its context is cancelled and no call waits in its table.
abbrev pub IsCut : Peer → Type 0
IsCut p = (p.canceled ≡ true) × (p.pending.table ≡ [])

drop_peers-IsCut :
    (c : Codec) (n : Net) (m : Map ℕ) (s : Server) (q : ℕ)
    → IsCut (s.heap q)
    → IsCut ((drop_peers c n m s).heap q)
unfolding drop_peers fail_all
drop_peers-IsCut c n [] s q h = h
drop_peers-IsCut c n ((id, ptr) ∷ m) s q h = drop_peers-IsCut c n m _ q (ground arith)

drop_peers-cuts :
    (c : Codec) (n : Net) (m : Map ℕ) (s : Server) (id : Text) (ptr : ℕ)
    → lookup id m ≡ some ptr
    → IsCut ((drop_peers c n m s).heap ptr)
unfolding drop_peers fail_all lookup
drop_peers-cuts c n [] s id ptr e = cc
drop_peers-cuts c n ((k, q) ∷ m) s id ptr e = elim (Bool-cases (text_eq k id)) [
  | inl same ↦ let here : q ≡ ptr = ground arith in drop_peers-IsCut c n m _ ptr (ground arith)
  | inr other ↦ drop_peers-cuts c n m _ id ptr (ground arith)
]

-- The first `Close` cancels every peer that is connected after its shutdown, empties its table of
-- waiting calls, and forgets it.
pub close_cuts :
    (c : Codec) (n : Net) (s : Server) (id : Text) (ptr : ℕ)
    → s.closed ≡ false
    → lookup id (n.meanwhile (shut_down c n s)).peers ≡ some ptr
    → IsCut ((close c n s).1.heap ptr) × ((close c n s).1.peers ≡ [])
unfolding close
close_cuts c n s id ptr serving e =
    let s' = n.meanwhile (shut_down c n s) in
    if-cases (λ (r : Option Error × Server × List Closing). IsCut (r.1.heap ptr) × (r.1.peers ≡ []))
      s.closed _ _ (λ shut. cc)
      λ _. (drop_peers-cuts c n s'.peers _ id ptr e, drop_peers-peers c n s'.peers _)

-- A listener that `Start` opens is the server's, or it is closed: none is leaked when another
-- `Start` or a `Close` comes between the two locked sections.
pub bind_keeps_or_closes :
    (c : Codec) (n : Net) (path : Text) (lis : ℕ) (addr : Text) (s : Server)
    → let r = bind c n path (inr (lis, addr)) s in
      ((r.1.listener ≡ some lis) × (r.1.server ≡ some lis) × (r.2 ≡ []))
      ⊎ ((r.1 ≡ n.meanwhile s) × (r.2 ≡ closes_listener lis ∷ closes_server lis ∷ []))
unfolding bind
bind_keeps_or_closes c n path lis addr s = ground arith
