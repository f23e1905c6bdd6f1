-- ===== src/Security.antt =====
-- src/security: the rate limiters and the sanitizer.
pub mod Packets
pub mod Float
pub mod Connections
pub mod Sanitizer
mod Tests
