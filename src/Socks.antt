-- ===== src/Socks.antt =====
-- src/socks_proxy.rs: the wire format, the request parser and the client handler.
pub mod Stream
pub mod Wire
pub mod Calm
pub mod Request
pub mod Client
pub mod Proxy
pub mod Tests
