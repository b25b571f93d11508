-- ===== src/Holonrpc/Reads.antt =====
-- What the read loops of pkg/holonrpc meet: `readLoop` of client.go and the loop of
-- `handleWebSocket` of server.go. Each owns a connection and reads it until a read fails.
pub mod History
use go_holons.Common.{Option, List}
use go_holons.Common.Text.{Text}
use go_holons.Holonrpc.Message.{RpcMessage}
use go_holons.Holonrpc.Pending.Steps.{Event}

-- What other goroutines do to the state while a loop reads. `table` lists what they do to the
-- pending table of the connection; no loop looks at it.
pub record Others (S : Type 0) : Type 0 where
  pub act : S → S
  pub table : List (Event RpcMessage)

-- A frame that is read, and what others do until then. `none`: a frame that is not a text.
pub record Arrival (S : Type 0) : Type 0 where
  pub others : Others S
  pub frame : Option Text
