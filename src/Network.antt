-- ===== src/Network.antt =====
-- src/network: the PROXY protocol and the stream that puts bytes back.
pub mod Stream
pub mod Proxy
pub mod Prefixed
mod Tests
