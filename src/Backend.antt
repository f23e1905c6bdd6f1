-- ===== src/Backend.antt =====
-- src/backend: the servers behind the proxy.
pub mod Router
pub mod Forwarding
pub mod Bridge
mod Tests
