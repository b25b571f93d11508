-- ===== src/Transport.antt =====
-- pkg/transport: the listeners behind `serve --listen <URI>`, and the gateway for browsers.
pub mod WebBridge
pub mod Listeners
pub mod Uri
mod Tests
