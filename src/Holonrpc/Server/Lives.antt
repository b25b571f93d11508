-- ===== src/Holonrpc/Server/Lives.antt =====
-- What a server is at every point of its life: `Start`, `Close` and the ends of `handleWebSocket`
-- of pkg/holonrpc/server.go, in any order.
use go_holons.Common.{
  ℕ, suc, ◌<◌, ◌≤◌, ◌≡◌, refl, ◌⊎◌, inl, inr, Option, none, some, List, [], ◌∷◌, true, arith, All,
  length, length-append, is_some, if◌then◌else◌, ◌==◌, if-cases, not,
}
use go_holons.Common.Text.{Text, text, text_eq}
use go_holons.Common.Map.{
  Map, erase, NodupKeys, insert-NodupKeys, erase-NodupKeys, All-insert, All-erase,
}
use go_holons.Holonrpc.Message.{Codec, Error, error_connection_closed}
use go_holons.Holonrpc.Pending.{fail_all}
use go_holons.Holonrpc.Server.State.{Server, Peer, Handler, update_peer}
use go_holons.Holonrpc.Server.Request.{closed_message, fail_peer_pending}
use go_holons.Holonrpc.Server.Lifecycle.{
  Net, Closing, Started, new_server, install, bind, listen_at, start, close, register_handler,
  unregister_handler, wait_for_client, take_event, drop_peers, shut_down, enqueue_event,
  queue_limit, attach, upgrade, detach, Url,
}

-- A closed server serves nothing; server and listener come and go together; at most 32 events are
-- queued; every entry of the map of peers points to a peer of that name, and no name is double.
pub record IsServer (s : Server) : Type 0 where
  pub paired : is_some s.server ≡ is_some s.listener
  pub shut : s.closed ≡ true → s.server ≡ none
  pub queued : length s.connect_q ≤ queue_limit
  pub allocated : All (λ e. e.1 < s.next_peer) s.peers
  pub named : All (λ e. (s.heap e.1).id ≡ e.0) s.peers
  pub distinct : NodupKeys s.peers

pub new_server-IsServer : (url : Text) → IsServer (new_server url)
unfolding new_server
new_server-IsServer url = record {
  paired = refl;
  shut = λ e. refl;
  queued = omega arith;
  allocated = tt;
  named = tt;
  distinct = tt;
}

enqueue_event-le :
    (id : Text) (q : List Text) → length q ≤ queue_limit → length (enqueue_event id q) ≤ queue_limit
unfolding enqueue_event
enqueue_event-le id q h = ground (arith, length-append q (id ∷ []))

-- A peer that is allocated keeps its name when the next one is.
named-next :
    (s : Server) (p : Peer) (m : Map ℕ)
    → All (λ e. e.1 < s.next_peer) m
    → All (λ e. (s.heap e.1).id ≡ e.0) m
    → All
        (λ e.
          ((record s { heap = λ q. if s.next_peer == q then p else s.heap q }).heap e.1).id ≡ e.0)
        m
named-next s p [] a h = tt
named-next s p ((k, ptr) ∷ m) a h = (ground (arith, a.0, h.0), named-next s p m a.1 h.1)

-- Nor does a peer lose its name by a change of its other fields.
named-update :
    (s : Server) (ptr : ℕ) (f : Peer → Peer) (m : Map ℕ)
    → ((p : Peer) → (f p).id ≡ p.id)
    → All (λ e. (s.heap e.1).id ≡ e.0) m
    → All (λ e. ((update_peer ptr f s).heap e.1).id ≡ e.0) m
named-update s ptr f [] keeps h = tt
named-update s ptr f ((k, q) ∷ m) keeps h =
    (ground (arith, keeps (s.heap q), h.0), named-update s ptr f m keeps h.1)

allocated-next : (n : ℕ) (m : Map ℕ) → All (λ e. e.1 < n) m → All (λ e. e.1 < suc n) m
allocated-next n [] h = tt
allocated-next n ((k, q) ∷ m) h = (omega (arith, h.0), allocated-next n m h.1)

attach-IsServer : (s : Server) → IsServer s → IsServer (attach s).1
unfolding attach
attach-IsServer s v =
    let id = ((attach s).1.heap s.next_peer).id in
    record {
      paired = v.paired;
      shut = v.shut;
      queued = enqueue_event-le _ s.connect_q v.queued;
      allocated =
          All-insert (λ e. e.1 < suc s.next_peer) _ s.next_peer s.peers (omega arith)
            (allocated-next s.next_peer s.peers v.allocated);
      named =
          All-insert (λ e. ((attach s).1.heap e.1).id ≡ e.0) _ s.next_peer s.peers (ground arith)
            (named-next s _ s.peers v.allocated v.named);
      distinct = insert-NodupKeys _ s.next_peer s.peers v.distinct;
    }

drop_peer-IsServer :
    (c : Codec) (ptr : ℕ) (s : Server)
    → IsServer s
    → IsServer
        (fail_peer_pending c ptr error_connection_closed
          (update_peer ptr (λ p. record p { canceled = true }) s)).1
unfolding fail_peer_pending
drop_peer-IsServer c ptr s v =
    let cancel = λ (p : Peer). record p { canceled = true } in
    let fail = λ (p : Peer). record p {
      pending = fail_all (closed_message c error_connection_closed) p.pending;
    } in
    record {
      paired = v.paired;
      shut = v.shut;
      queued = v.queued;
      allocated = v.allocated;
      named =
          named-update (update_peer ptr cancel s) ptr fail s.peers (λ p. refl)
            (named-update s ptr cancel s.peers (λ p. refl) v.named);
      distinct = v.distinct;
    }

erase_peer-IsServer :
    (id : Text) (s : Server) → IsServer s → IsServer (record s { peers = erase id s.peers })
erase_peer-IsServer id s v = record {
  paired = v.paired;
  shut = v.shut;
  queued = v.queued;
  allocated = All-erase (λ e. e.1 < s.next_peer) id s.peers v.allocated;
  named = All-erase (λ e. (s.heap e.1).id ≡ e.0) id s.peers v.named;
  distinct = erase-NodupKeys id s.peers v.distinct;
}

detach-IsServer : (c : Codec) (ptr : ℕ) (s : Server) → IsServer s → IsServer (detach c ptr s)
unfolding detach
detach-IsServer c ptr s v =
    drop_peer-IsServer c ptr (record s { peers = erase (s.heap ptr).id s.peers })
      (erase_peer-IsServer (s.heap ptr).id s v)

upgrade-IsServer : (o : Option Text) (s : Server) → IsServer s → IsServer (upgrade o s).1
unfolding upgrade
upgrade-IsServer none s v = v
upgrade-IsServer (some protocol) s v = ground (arith, attach-IsServer s v)

drop_peers-IsServer :
    (c : Codec) (n : Net) (m : Map ℕ) (s : Server) → IsServer s → IsServer (drop_peers c n m s)
unfolding drop_peers
drop_peers-IsServer c n [] s v = v
drop_peers-IsServer c n ((id, ptr) ∷ m) s v =
    drop_peers-IsServer c n m _ (drop_peer-IsServer c ptr s v)

-- The server that a step leaves is in order.
abbrev After : {A : Type 0} → A × Server × List Closing → Type 0
After r = IsServer r.1

forget_peers-IsServer : (s : Server) → IsServer s → IsServer (record s { peers = [] })
forget_peers-IsServer s v = record {
  paired = v.paired;
  shut = v.shut;
  queued = v.queued;
  allocated = tt;
  named = tt;
  distinct = tt;
}

shut_down-IsServer : (c : Codec) (n : Net) (s : Server) → IsServer s → IsServer (shut_down c n s)
shut_down-IsServer c n s v = record {
  paired = refl;
  shut = λ e. refl;
  queued = v.queued;
  allocated = v.allocated;
  named = v.named;
  distinct = v.distinct;
}

-- What runs between the two locked sections of `Start`, or of `Close`, keeps the server in order.
abbrev pub Keeps : Net → Type 0
Keeps n = (s : Server) → IsServer s → IsServer (n.meanwhile s)

close-IsServer :
    (c : Codec) (n : Net) (s : Server) → Keeps n → IsServer s → IsServer (close c n s).1
unfolding close
close-IsServer c n s k v =
    let s' = n.meanwhile (shut_down c n s) in
    let kept = k (shut_down c n s) (shut_down-IsServer c n s v) in
    if-cases (After {A = Option Error}) s.closed _ _ (λ _. v)
      λ _. drop_peers-IsServer c n s'.peers _ (forget_peers-IsServer s' kept)

install-IsServer :
    (lis : ℕ) (path actual : Text) (s : Server)
    → IsServer s
    → IsServer (install lis path actual s).1
unfolding install
install-IsServer lis path actual s v =
    if-cases (After {A = Started}) s.closed _ _ (λ _. v)
      λ serving.
        if-cases (After {A = Started}) (is_some s.server) _ _ (λ _. v)
          λ _. record {
            paired = refl;
            shut = λ e. cc;
            queued = v.queued;
            allocated = v.allocated;
            named = v.named;
            distinct = v.distinct;
          }

bind-IsServer :
    (c : Codec) (n : Net) (path : Text) (o : Error ⊎ (ℕ × Text)) (s : Server)
    → Keeps n
    → IsServer s
    → IsServer (bind c n path o s).1
unfolding bind
bind-IsServer c n path (inl e) s k v = v
bind-IsServer c n path (inr (lis, addr)) s k v = install-IsServer lis path _ _ (k s v)

listen_at-IsServer :
    (c : Codec) (n : Net) (o : Error ⊎ Url) (s : Server)
    → Keeps n
    → IsServer s
    → IsServer (listen_at c n o s).1
unfolding listen_at
listen_at-IsServer c n (inl e) s k v = v
listen_at-IsServer c n (inr u) s k v =
    if-cases (After {A = Started}) (not (text_eq u.scheme (text "ws"))) _ _ (λ _. v)
      λ _. bind-IsServer c n _ _ s k v

start-IsServer :
    (c : Codec) (n : Net) (s : Server) → Keeps n → IsServer s → IsServer (start c n s).1
unfolding start
start-IsServer c n s k v =
    if-cases (After {A = Started}) s.closed _ _ (λ _. v)
      λ _.
        if-cases (After {A = Started}) (is_some s.server) _ _ (λ _. v)
          λ _. listen_at-IsServer c n (n.parse_url s.address) s k v

-- The steps of a server's life.
pub data Life : Type 0 where
  starts closes : Net → Life
  upgrades : Option Text → Life
  detaches : ℕ → Life
  registers : Text → Handler → Life
  unregisters : Text → Life
  waits : Life

unfoldable pub live : Codec → Life → Server → Server
live c (starts n) s = (start c n s).1
live c (closes n) s = (close c n s).1
live c (upgrades o) s = (upgrade o s).1
live c (detaches ptr) s = detach c ptr s
live c (registers method h) s = register_handler method h s
live c (unregisters method) s = unregister_handler method s
live c waits s = (wait_for_client s).1

unfoldable pub live_all : Codec → List Life → Server → Server
unfolding live
live_all c [] s = s
live_all c (l ∷ ls) s = live_all c ls (live c l s)

-- During `Start` and `Close` others may do what keeps the server in order.
abbrev pub IsOrderly : Life → Type 0
IsOrderly (starts n) = Keeps n
IsOrderly (closes n) = Keeps n
IsOrderly _ = Unit {0}

take_event-IsServer :
    (q : List Text) (s : Server) → IsServer s → length q ≤ queue_limit → IsServer (take_event q s).1
unfolding take_event
take_event-IsServer [] s v h = v
take_event-IsServer (id ∷ q) s v h = record {
  paired = v.paired;
  shut = v.shut;
  queued = omega arith;
  allocated = v.allocated;
  named = v.named;
  distinct = v.distinct;
}

wait_for_client-IsServer : (s : Server) → IsServer s → IsServer (wait_for_client s).1
unfolding wait_for_client
wait_for_client-IsServer s v = take_event-IsServer s.connect_q s v v.queued

live-IsServer :
    (c : Codec) (l : Life) (s : Server) → IsOrderly l → IsServer s → IsServer (live c l s)
unfolding live register_handler unregister_handler
live-IsServer c (starts n) s k v = start-IsServer c n s k v
live-IsServer c (closes n) s k v = close-IsServer c n s k v
live-IsServer c (upgrades o) s k v = upgrade-IsServer o s v
live-IsServer c (detaches ptr) s k v = detach-IsServer c ptr s v
live-IsServer c (registers method h) s k v = ground (arith, v)
live-IsServer c (unregisters method) s k v = ground (arith, v)
live-IsServer c waits s k v = wait_for_client-IsServer s v

-- Whatever steps follow one another from `NewServer` on, the server stays in order: see `IsServer`.
pub live_all-IsServer :
    (c : Codec) (ls : List Life) (s : Server)
    → All IsOrderly ls
    → IsServer s
    → IsServer (live_all c ls s)
unfolding live_all
live_all-IsServer c [] s k v = v
live_all-IsServer c (l ∷ ls) s k v =
    live_all-IsServer c ls (live c l s) k.1 (live-IsServer c l s k.0 v)
