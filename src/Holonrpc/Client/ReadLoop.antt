-- ===== src/Holonrpc/Client/ReadLoop.antt =====
-- `readLoop` of pkg/holonrpc/client.go: what a connection of the client reads, from its first frame
-- to the error of a read, and the two deferred calls after it. The requests that it reads are
-- handled in goroutines; what they send is listed where they are read.
pub mod Runs
pub mod Answers
use go_holons.Common.{ℕ, Option, none, some, List, [], ◌∷◌, ◌++◌, map}
use go_holons.Common.Text.{Text}
use go_holons.Holonrpc.Message.{Codec}
use go_holons.Holonrpc.Reads.{Others, Arrival}
use go_holons.Holonrpc.Server.State.{Frame}
use go_holons.Holonrpc.Client.Connection.{Client, Effect, on_disconnect}
use go_holons.Holonrpc.Client.Request.{receive_frame}

-- What the loop did: the frames that it sent, its effects on its connection, and `close(done)`.
pub data Done : Type 0 where
  sends : Frame → Done
  does : Effect → Done
  closes_done : ℕ → Done

module _ (c : Codec) where
  -- one round of the loop, where the read succeeds
  unfoldable pub read_frame : ℕ → Option Text → Client → Client × List Frame
  read_frame ws none s = (s, [])
  read_frame ws (some payload) s = receive_frame c ws payload s

  -- the deferred calls: `onDisconnect`, then `close(done)`
  unfoldable pub end_reads : ℕ → Client → Client × List Done
  end_reads ws s =
      let (_, s', fx) = on_disconnect c ws s in (s', map does fx ++ closes_done ws ∷ [])

  -- `readLoop`, where the read after those frames fails
  unfoldable pub read_loop : ℕ → List (Arrival Client) → Others Client → Client → Client × List Done
  unfolding read_frame end_reads
  read_loop ws [] last s = end_reads ws (last.act s)
  read_loop ws (a ∷ arrivals) last s =
      let (s', sent) = read_frame ws a.frame (a.others.act s) in
      let (s'', done) = read_loop ws arrivals last s' in (s'', map sends sent ++ done)
