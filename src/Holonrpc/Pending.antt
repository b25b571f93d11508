-- ===== src/Holonrpc/Pending.antt =====
-- The pending table that pairs responses with calls: `pending map[string]chan rpcMessage` of
-- pkg/holonrpc/client.go and pkg/holonrpc/server.go. Each call allocates a channel with a buffer
-- of one message; the table maps the call's key to it. Channels are numbers here, and `buffers` is
-- the heap of their buffers, since a call still reads a channel that has left the table.
pub mod Laws
pub mod Steps
pub mod Refines
use go_holons.Common.{ℕ, suc, Option, none, some, List, [], ◌∷◌, ◌==◌, if◌then◌else◌}
use go_holons.Common.Text.{Text}
use go_holons.Common.Map.{Map, lookup, insert, erase}

pub record Pending (M : Type 0) : Type 0 where
  pub next : ℕ
  pub table : Map ℕ
  pub buffers : ℕ → Option M

module _ {M : Type 0} where
  -- `make(map[string]chan rpcMessage)`
  unfoldable pub empty : Pending M
  empty = record { next = 0; table = []; buffers = λ _. none }

  -- `ch := make(chan rpcMessage, 1)` and `pending[key] = ch`
  unfoldable pub register : Text → Pending M → ℕ × Pending M
  register key p = (p.next, record p { next = suc p.next; table = insert key p.next p.table })

  -- the deferred `delete(pending, key)`
  unfoldable pub unregister : Text → Pending M → Pending M
  unregister key p = record p { table = erase key p.table }

  -- A buffer that holds a message keeps it.
  abbrev pub fill : M → Option M → Option M
  fill m none = some m
  fill m (some old) = some old

  -- `select { case ch <- msg: default: }`
  unfoldable pub try_send : ℕ → M → (ℕ → Option M) → ℕ → Option M
  try_send ch m buffers c = if ch == c then fill m (buffers c) else buffers c

  -- `ch, exists := pending[key]`, and the send if it exists
  unfoldable pub deliver : Text → M → Pending M → Pending M
  unfolding try_send
  deliver key m p = elim (lookup key p.table) [
    | none ↦ p
    | some ch ↦ record p { buffers = try_send ch m p.buffers }
  ]

  -- the loop over `pending` of `failAllPending` and `failPeerPending`
  unfoldable pub send_all : Map ℕ → M → (ℕ → Option M) → ℕ → Option M
  unfolding try_send
  send_all [] m buffers = buffers
  send_all ((key, ch) ∷ table) m buffers = send_all table m (try_send ch m buffers)

  -- `failAllPending` and `failPeerPending`, given the error's envelope
  unfoldable pub fail_all : M → Pending M → Pending M
  unfolding send_all
  fail_all m p = record p { table = []; buffers = send_all p.table m p.buffers }

  -- `<-ch`, where it does not block: the message leaves the buffer.
  unfoldable pub receive : ℕ → Pending M → Option M × Pending M
  receive ch p = (p.buffers ch, record p { buffers = λ c. if ch == c then none else p.buffers c })
