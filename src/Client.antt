-- ===== src/Client.antt =====
-- src/client.rs: a client's handshake and its login, up to the bridge. What arrives, the ciphers and
-- the outcome of each write are the parameter `Wire`; the plugins, the session server and the
-- router are those of their modules.
pub mod Guards
pub mod Reach
mod Tests
use mathlib.Core.Option
use vine.Base.{
  ℕ, ℤ, pos, negsuc, suc, Bool, true, false, ◌&&◌, not, ◌==◌, if◌then◌else◌, List, [], ◌∷◌, ◌++◌,
  Option, none, some, Text, codes, text_eq, text_key, as_u32, length, lookup, IpAddr,
}
use vine.Config.{Config, BackendConfig}
use vine.Security.Sanitizer.{sanitize_host, is_valid_username}
use vine.Backend.Router.{resolve_server}
use vine.Backend.Router
use vine.Backend.Forwarding.{AuthenticatedPlayer}
use vine.Backend.Bridge.Login.{BackendBridge}
use vine.Auth.{Service, AuthError, Authenticated, player, refused, authenticate, offline}
use vine.Plugin.Api.{PlayerPreLoginEvent, PlayerLoginEvent}
use vine.Plugin.Handlers.{PluginManager}
use vine.Plugin.Fire.{Call, Plugins, fire_player_pre_login, fire_player_login}

pub data ClientError : Type 0 where
  timeout : ClientError
  decode_error encode_error auth_error : Text → ClientError

-- What a read of a packet finds.
pub data Received (A : Type 0) : Type 0 where
  received : A → Received A
  undecodable : Text → Received A
  too_late : Received A

pub data Sent : Type 0 where
  encryption_request : Text → Text → Sent
  set_compression : ℕ → Sent
  login_disconnect : Text → Sent

pub record EncryptionResponse : Type 0 where
  pub shared_secret : Text
  pub verify_token : Text

-- A cipher's result, or its error as it is printed.
pub data Decrypted : Type 0 where
  plain : Text → Decrypted
  broken : Text → Decrypted

pub data NextState : Type 0 where
  to_status to_login to_other : NextState

pub record Handshake : Type 0 where
  pub protocol_version : ℤ
  pub server_address : Text
  pub next_state : NextState

-- Where the handler goes with a handshake: to the status of a host, to a bridge, or nowhere.
pub data Reached : Type 0 where
  status : Text → ℕ → Reached
  bridge : BackendBridge → Reached
  nothing : Reached

pub record Wire : Type 0 where
  pub handshake : Received Handshake
  -- `JavaMinecraftVersion::from_protocol`, as the protocol's number again
  pub from_protocol : ℕ → ℕ
  pub login_start : Received Text
  pub encryption_response : Received EncryptionResponse
  pub public_key_der : Text
  -- The random token, and `decrypt` and `auth_digest` of the proxy's keys
  pub token : Text
  pub decrypt : Text → Decrypted
  pub auth_digest : Text → Text
  pub show_auth_error : AuthError → Text
  pub write_error : List Sent → Sent → Option Text
  -- The error of serializing a disconnect packet, and those of the two ciphers' keys
  pub kick_error : Text → Option Text
  pub decoder_key_error : Text → Option Text
  pub encoder_key_error : Text → Option Text
  pub show_ip : IpAddr → Text
  pub show_uuid : Text → Text

pub record ClientHandler : Type 0 where
  pub peer_ip : IpAddr
  pub config : Config
  pub router : Router.Router
  pub service : Service
  pub handle_event : Plugins
  pub manager : PluginManager

pub record ClientState : Type 0 where
  pub calls : List Call
  pub sent : List Sent
  pub encryption : Option Text
  pub compression : Option (ℕ × ℕ)

-- A part of the login goes on with a value, or the handler returns.
pub data Flow (A : Type 0) : Type 0 where
  go : ClientState → A → Flow A
  closed : ClientState → Flow A
  errored : ClientState → ClientError → Flow A

infixl 5 ◌>>>◌
unfoldable pub ◌>>>◌ : {A B : Type 0} → Flow A → (ClientState → A → Flow B) → Flow B
go s a >>> f = f s a
closed s >>> f = closed s
errored s e >>> f = errored s e

-- `reason.replace('"', "\\\"")`
escape_quotes : Text → Text
escape_quotes [] = []
escape_quotes (c ∷ cs) =
    let rest = escape_quotes cs in if c == b'"' then b'\\' ∷ b'"' ∷ rest else c ∷ rest

kick_reason : Text → Text
unfolding escape_quotes
kick_reason reason =
    codes "{\"text\":\"[Vine Proxy] " ++ (escape_quotes reason ++ codes "\",\"color\":\"red\"}")

module _ (w : Wire) (h : ClientHandler) where
  pub receive : {A : Type 0} → ClientState → Received A → Flow A
  receive s (received a) = go s a
  receive s (undecodable e) = errored s (decode_error e)
  receive s too_late = errored s timeout

  kicked : {A : Type 0} → ClientState → Option Text → Flow A → Flow A
  kicked s none after = after
  kicked s (some e) after = errored s (encode_error e)

  with_disconnect : ClientState → Text → ClientState
  unfolding kick_reason
  with_disconnect s reason = record s {
    sent = s.sent ++ login_disconnect (kick_reason reason) ∷ [];
  }

  -- `kick` and a return; an error of writing is ignored.
  kick : {A : Type 0} → ClientState → Text → Flow A
  unfolding kicked with_disconnect
  kick s reason = kicked s (w.kick_error (kick_reason reason)) (closed (with_disconnect s reason))

  kick_with : {A : Type 0} → ClientState → Text → Text → Flow A
  unfolding kicked with_disconnect
  kick_with s reason error =
      kicked s (w.kick_error (kick_reason reason))
        (errored (with_disconnect s reason) (auth_error error))

  pub wrote : ClientState → Sent → Option Text → Flow ClientState
  wrote s packet none = let t = record s { sent = s.sent ++ packet ∷ [] } in go t t
  wrote s packet (some e) = errored s (encode_error e)

  send : ClientState → Sent → Flow ClientState
  unfolding wrote
  send s packet = wrote s packet (w.write_error s.sent packet)

  -- A plugin's refusal of the client.
  unless_cancelled : {A : Type 0} → ClientState → Bool → Text → A → Flow A
  unfolding kick
  unless_cancelled s true reason a = kick s reason
  unless_cancelled s false reason a = go s a

  pub pre_login : ClientState → Text → Text → ℕ → Flow Text
  pre_login s username virtual_host version =
      let event = fire_player_pre_login h.handle_event h.manager s.calls (record {
        client_ip = w.show_ip h.peer_ip;
        username = username;
        protocol_version = version;
        virtual_host = virtual_host;
        cancelled = false;
        cancel_reason = none;
      }) in
      unless_cancelled (record s { calls = event.0 }) event.1.cancelled
        (Option.get_or event.1.cancel_reason (codes "Connection cancelled by plugin")) username

  pub check_username : ClientState → Text → Flow Text
  unfolding kick
  check_username s username =
      if h.config.security.validate_usernames && not (is_valid_username username)
      then kick s (codes "Invalid username characters or length (must be 2-16 alphanumeric or _)")
      else go s username

  pub decrypted : ClientState → Decrypted → Flow Text
  decrypted s (plain text) = go s text
  decrypted s (broken e) = errored s (auth_error e)

  pub check_token : ClientState → Text → Flow Text
  unfolding kick_with
  check_token s decrypted_token =
      if text_eq decrypted_token w.token
      then go s decrypted_token
      else kick_with s (codes "Failed to verify encryption token") (codes "Token mismatch")

  pub check_secret : ClientState → Text → Flow Text
  unfolding kick_with
  check_secret s shared_secret =
      if length shared_secret == 16
      then go s shared_secret
      else kick_with s (codes "Invalid encryption key length") (codes "Invalid key length")

  pub check_player : ClientState → Authenticated → Flow AuthenticatedPlayer
  unfolding kick_with
  check_player s (player p) = go s p
  check_player s (refused e) =
      kick_with s
        (codes "Failed to verify username with Mojang session servers! Please try again later.")
        (w.show_auth_error e)

  pub keyed : ClientState → Text → Option Text → Option Text → Flow Text
  keyed s key none none = go (record s { encryption = some key }) key
  keyed s key (some e) _ = errored s (decode_error e)
  keyed s key none (some e) = errored s (encode_error e)

  online_login : ClientState → Text → Flow AuthenticatedPlayer
  online_login s username = send s (encryption_request w.public_key_der w.token) >>> λ s _.
      receive s w.encryption_response >>> λ s response.
      decrypted s (w.decrypt response.verify_token) >>> λ s token. check_token s token >>> λ s _.
      decrypted s (w.decrypt response.shared_secret) >>> λ s secret.
      check_secret s secret >>> λ s secret.
      check_player s (
        authenticate h.service username (w.auth_digest secret) h.peer_ip
          h.config.server.prevent_proxy_connections)
      >>> λ s p.
          keyed s secret (w.decoder_key_error secret) (w.encoder_key_error secret) >>> λ s _. go s p

  login_mode : ClientState → Text → Bool → Flow AuthenticatedPlayer
  login_mode s username true = online_login s username
  login_mode s username false = go s (offline h.service username)

  login_player : ClientState → Text → Flow AuthenticatedPlayer
  login_player s username = login_mode s username h.config.server.online_mode

  pub login_event : ClientState → AuthenticatedPlayer → Flow AuthenticatedPlayer
  login_event s p =
      let event = fire_player_login h.handle_event h.manager s.calls (record {
        uuid = w.show_uuid p.id;
        username = p.username;
        client_ip = w.show_ip h.peer_ip;
        cancelled = false;
        cancel_reason = none;
      }) in
      unless_cancelled (record s { calls = event.0 }) event.1.cancelled
        (Option.get_or event.1.cancel_reason (codes "Login cancelled by plugin")) p

  pub compress : ClientState → ℤ → Flow ClientState
  unfolding send
  compress s (pos (suc n)) = send s (set_compression (suc n)) >>> λ s _.
      let t = record s { compression = some (suc n, as_u32 h.config.server.compression_level) } in
      go t t
  compress s _ = go s s

  pub route : ClientState → Option (Text × BackendConfig) → Flow (Text × BackendConfig)
  unfolding kick
  route s (some found) = go s found
  route s none =
      kick s (codes "No default or matching backend Minecraft server is configured on the proxy.")

  named_fallback : Option Text → Option (Text × BackendConfig)
  named_fallback none = none
  named_fallback (some name) = Option.map (λ cfg. (name, cfg)) (lookup h.config.servers name)

  pub fallback_server : Option (Text × BackendConfig)
  unfolding named_fallback
  fallback_server =
      if h.config.routing.try_fallback_on_connect_failure
      then named_fallback h.config.routing.fallback_server
      else none

  -- `BackendBridge::new`
  new_bridge : Text × BackendConfig → AuthenticatedPlayer → Text → ℕ → BackendBridge
  new_bridge target p virtual_host version = record {
    server_name = target.0;
    config = target.1;
    fallback_server = fallback_server;
    client_ip = h.peer_ip;
    client_version = version;
    virtual_host = virtual_host;
    player = p;
    max_packets_per_sec = h.config.security.max_packets_per_sec;
    network_config = h.config.network;
    compression_level = h.config.server.compression_level;
    proxy_config = h.config;
  }

  pub handle_login : ClientState → Text → ℕ → Flow BackendBridge
  unfolding new_bridge
  handle_login s virtual_host version = receive s w.login_start >>> λ s username.
      pre_login s username virtual_host version >>> λ s username.
      check_username s username >>> λ s username. login_player s username >>> λ s p.
      login_event s p >>> λ s p. compress s h.config.server.compression_threshold >>> λ s _.
      route s (resolve_server h.router virtual_host) >>> λ s target.
      go s (new_bridge target p virtual_host version)

  after_handshake : ClientState → NextState → Text → ℕ → Flow Reached
  after_handshake s to_status clean_host version = go s (status clean_host version)
  after_handshake s to_login clean_host version =
      handle_login s clean_host version >>> λ s b. go s (bridge b)
  after_handshake s to_other clean_host version = go s nothing

  pub handle : ClientState → Flow Reached
  handle s = receive s w.handshake >>> λ s handshake.
      after_handshake s handshake.next_state (sanitize_host handshake.server_address)
        (w.from_protocol (as_u32 handshake.protocol_version))
