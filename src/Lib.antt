-- ===== src/Lib.antt =====
-- The Vine proxy: a Minecraft proxy that accepts clients, checks and limits them, chooses a backend
-- server for each and relays between the two. A connection comes in at the listener, which asks the
-- connection limiter and, behind a load balancer, reads the PROXY header; the bytes that were read
-- past the header go back in front of the stream. The virtual host of the handshake is sanitized
-- and led to a server by the router. The client logs in, under the eyes of the plugins, and its
-- bridge connects to that server, forwards the player's identity and moves the player on when a
-- server is lost or another is asked for. While the bridge lasts the player is registered in the
-- session registry, which the commands read under the permissions of the player.
--
--   Permissions   src/permissions.rs: `matches_node`, the configuration, `collect_permissions` (the
--                 queue, the visited groups and the result of its loop are the record `Search`),
--                 `has_permission`
--   Security      src/security: `TokenBucket` and `ConnectionRateLimiter` (Connections),
--                 `PacketRateLimiter` (Packets), `Sanitizer` (Sanitizer); Float is `f64`
--   Session       src/session.rs: `SessionManager` and its operations; History has the specification
--   Network       src/network: proxy_protocol.rs (Proxy), prefixed_stream.rs (Prefixed); Stream is
--                 the source that they read
--   Config        src/config.rs and src/bedrock/config.rs: the records and the default configuration
--   Backend       src/backend: mod.rs (Router), forwarding.rs (Forwarding), bridge.rs (Bridge, with
--                 `connect_to_backend` in Connect, `login_backend` in Login, `run` in Run,
--                 `inject_proxy_commands` in Inject)
--   Client        src/client.rs: `ClientHandler`, `handle` and `handle_login`
--   Auth          src/auth.rs: `Authenticator::authenticate` and offline players
--   Status        src/status/icon.rs (Icon): the icon of a host and the cache of the files
--   Plugin        src/plugin: api.rs (Api), and of mod.rs the handlers, loading and unloading
--                 (Handlers) and the dispatch of the events (Fire)
--   Command       src/command: the senders (mod.rs), `/send` (send.rs), `/server` (server.rs), `/glist`
--                 (glist.rs), `/list`
--   Bedrock       src/bedrock/status.rs: `BedrockStatusHandler`
--   Base          lists, bytes, maps and numbers that the parts share, and their lemmas
--
-- Each operation of the source is a function of its name. A `HashMap` is an association list in the
-- order of its iterator, a `RwLock` its content and whether it is poisoned, an `Instant` a number
-- of nanoseconds that is handed in. A text is the list of its bytes, or of its characters where the
-- source goes by characters. The 32-bit packet counter wraps, as does the counter of players at 2 ^
-- 64. An asynchronous source is the sequence of what its reads find: chunks, and failures; a read
-- takes at most what it asks for.
--
-- Loops run on fuel. The search of the groups has one round for each name that can be queued: the
-- groups of the user, and every name that some group inherits, since a group is expanded once. A
-- loop that reads has one round for each missing byte and one to leave it. Fuel that runs out is an
-- error of its own.
--
-- Parameters stand for code of other packages: `Float` with the laws of IEEE 754 that are used (of
-- integers below 2 ^ 32, which are exact), and `Parsers` for the UTF-8 check and the parser of
-- addresses, of which nothing is assumed; `Codec` for the protocol's writers, the printers, HMAC,
-- SHA-256 and Ed25519, whose laws stand with the theorems that use them; `Serial` for the Bedrock
-- packets; `Wire` for what a client's stream and the session server give; `Outside`, `Protocol` and
-- `TreeCodec` for what a bridge meets: the backends that it dials, the readers and writers of
-- packets, the plugins; base64 for the icons. A bridge runs over a list of turns: what its tunnel
-- returns, with what the other connections did to the registry in between.
--
-- Not modelled: the tunnel that relays the packets of one backend, and the suggestions that it
-- merges; the client's status request and the Java status answer but for its icon; the dispatcher
-- of the commands, their help texts and suggestions, and the commands of plugins; the WebAssembly
-- host of the plugins; telemetry; the loop that accepts connections; reading the configuration
-- file; sockets.
pub mod Base
pub mod Permissions
pub mod Security
pub mod Session
pub mod Status
pub mod Network
pub mod Config
pub mod Backend
pub mod Command
pub mod Bedrock
pub mod Plugin
pub mod Auth
pub mod Client
