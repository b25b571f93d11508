-- ===== src/Holonrpc/Server/State.antt =====
-- The state of pkg/holonrpc/server.go: `Server`, `serverPeer`, and what their methods do to the
-- outside. A `*serverPeer` is a number, `heap` maps it to the struct; it stands for the peer's
-- WebSocket connection too. Locks are left out: one locked section is one step of a method.
use go_holons.Common.{ℕ, Bool, Option, List, [], ◌++◌, ◌==◌, if◌then◌else◌}
use go_holons.Common.Text.{Text}
use go_holons.Common.Map.{Map}
use go_holons.Holonrpc.Value.{Object}
use go_holons.Holonrpc.Message.{RpcMessage, Error}
use go_holons.Holonrpc.Pending.{Pending}

-- What a handler returns: a result, which may be the nil map, or an error.
pub data Reply : Type 0 where
  returns : Option Object → Reply
  fails : Error → Reply

-- `Handler`. What it does to the server by itself is a step of its own.
abbrev pub Handler : Type 0
Handler = Object → Reply

pub record Peer : Type 0 where
  pub id : Text
  -- whether `cancel` was called
  pub canceled : Bool
  pub pending : Pending RpcMessage

-- `server` and `listener` are nil or not; `connect_q` is the buffer of `connectQ`, oldest first.
pub record Server : Type 0 where
  pub address : Text
  pub path : Text
  pub server : Option ℕ
  pub listener : Option ℕ
  pub closed : Bool
  pub handlers : Map Handler
  pub peers : Map ℕ
  pub heap : ℕ → Peer
  pub next_peer : ℕ
  pub connect_q : List Text
  pub next_client_id : ℕ
  pub next_server_id : ℕ

-- A text frame that was handed to the WebSocket library: to whom, and what it encodes.
pub record Frame : Type 0 where
  pub to : ℕ
  pub message : RpcMessage
  pub payload : Text

-- How the `select` of a call ends: by the message that the channel gave, by the end of the
-- caller's context, or by the end of the peer's.
pub data Wake : Type 0 where
  answered : RpcMessage → Wake
  context_done : Error → Wake
  peer_done : Wake

-- Where a call stands after its request: over with an error, or waiting on a channel of a peer.
pub data Called : Type 0 where
  refused : Error → Called
  waiting : (peer : ℕ) (key : Text) (ch : ℕ) → Called

-- What the program does not decide: the error of a write, if it fails; what other goroutines do
-- to the server while a call waits and how it wakes; what they do while a handler runs, and the
-- error of its context, if that ends first; the order in which calls that run together end.
pub record World : Type 0 where
  pub write_error : ℕ → Text → Option Error
  pub await : ℕ → Text → ℕ → Server → Wake × Server
  pub interrupt : Object → Server → Option Error × Server
  pub completion : List (Text × Called) → List (Text × Called)

-- A step reads and changes the server, and sends frames.
abbrev pub M : Type 0 → Type 0
M A = Server → A × Server × List Frame

abbrev pub pure : {A : Type 0} → A → M A
pure a s = (a, s, [])

abbrev pub send : List Frame → M (Unit {0})
send fs s = (tt, s, fs)

abbrev pub gets : {A : Type 0} → (Server → A) → M A
gets f s = (f s, s, [])

abbrev pub modify : (Server → Server) → M (Unit {0})
modify f s = (tt, f s, [])

infixl 5 ◌>>=◌ ◌>>◌
unfoldable pub ◌>>=◌ : {A B : Type 0} → M A → (A → M B) → M B
◌>>=◌ m f s = let (a, s1, sent) = m s in let (b, s2, more) = f a s1 in (b, s2, sent ++ more)

abbrev pub ◌>>◌ : {A B : Type 0} → M A → M B → M B
m >> k = m >>= λ _. k

-- `*p = f(*p)`
abbrev pub update_peer : ℕ → (Peer → Peer) → Server → Server
update_peer ptr f s = record s { heap = λ q. if ptr == q then f (s.heap q) else s.heap q }

abbrev pub update_pending : ℕ → (Pending RpcMessage → Pending RpcMessage) → Server → Server
update_pending ptr f = update_peer ptr (λ p. record p { pending = f p.pending })
