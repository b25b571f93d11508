-- ===== src/Holonrpc/Server.antt =====
-- pkg/holonrpc/server.go and the server's part of pkg/holonrpc/routing.go. `State` has the fields
-- of `Server` and `serverPeer`; the other children are its methods.
pub mod State
pub mod Send
pub mod Invoke
pub mod Route
pub mod Request
pub mod Sends
pub mod Silence
pub mod Replies
pub mod Answers
pub mod Calls
pub mod Forgets
pub mod Fanout
pub mod Lifecycle
pub mod Lives
pub mod Shutdown
pub mod Connection
