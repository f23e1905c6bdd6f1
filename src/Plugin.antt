-- ===== src/Plugin.antt =====
-- src/plugin: the plugins' event handlers, in `Handlers`, and the dispatchers of the events, in
-- `Fire`. The WebAssembly plugins themselves are parameters.
pub mod Api
pub mod Handlers
pub mod Order
pub mod Fire
mod Tests
