-- ===== src/Holonrpc/Client.antt =====
-- pkg/holonrpc/client.go: the life of the connection, the requests of the server, and calls.
pub mod Connection
pub mod Loop
pub mod Request
pub mod ReadLoop
pub mod Invoke
pub mod Answers
pub mod Lives
pub mod Calls
