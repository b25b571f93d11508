-- ===== src/Holonrpc.antt =====
-- pkg/holonrpc: Holon-RPC, which is JSON-RPC 2.0 over WebSocket.
pub mod Value
pub mod Message
pub mod Routing
pub mod Pending
pub mod Reads
pub mod Server
pub mod Client
pub mod RoundTrip
mod Tests
