-- ===== src/Config.antt =====
-- src/config.rs and src/bedrock/config.rs: the configuration. A `HashMap` is the list of its
-- entries in the order of its iterator, a text the list of its characters.
pub mod Defaults
use vine.Base.{ℕ, ℤ, Bool, List, Option, Text}
use vine.Permissions.{PermissionsConfig}

pub record PluginConfig : Type 0 where
  pub enabled : Bool
  pub plugin_dir : Text

pub record ServerConfig : Type 0 where
  pub bind_address : Text
  pub online_mode : Bool
  pub prevent_proxy_connections : Bool
  pub compression_threshold : ℤ
  pub compression_level : ℤ
  pub shutdown_timeout_secs : ℕ

pub record NetworkConfig : Type 0 where
  pub tcp_nodelay : Bool
  pub tcp_keepalive_secs : ℕ
  pub client_handshake_timeout_secs : ℕ
  pub client_status_timeout_secs : ℕ
  pub client_login_timeout_secs : ℕ
  pub backend_connect_timeout_secs : ℕ
  pub backend_login_timeout_secs : ℕ
  pub backend_connect_retry_attempts : ℕ
  pub recv_buffer_size : Option ℕ
  pub send_buffer_size : Option ℕ
  pub listen_backlog : ℕ
  pub proxy_protocol : Bool
  pub log_pings : Bool

pub record MotdConfig : Type 0 where
  pub line1 : Text
  pub line2 : Text
  pub max_players : ℕ
  pub version_name : Text
  pub protocol_version : ℤ
  pub sample_players : List Text
  pub icon_path : Option Text
  pub show_sample_players : Bool

pub record SecurityConfig : Type 0 where
  pub rate_limit_enabled : Bool
  pub max_connections_per_sec : ℕ
  pub connection_burst : ℕ
  pub max_packets_per_sec : ℕ
  pub max_packet_size : ℕ
  pub validate_usernames : Bool

pub record RoutingConfig : Type 0 where
  pub default_server : Text
  pub fallback_server : Option Text
  pub forced_hosts : List (Text × Text)
  pub try_fallback_on_connect_failure : Bool

-- `None`, `BungeeCord`, `Velocity` and `Vine`.
pub data ForwardingMode : Type 0 where
  no_forwarding bungee_cord velocity vine_forwarding : ForwardingMode

pub record BackendConfig : Type 0 where
  pub address : Text
  pub forwarding : ForwardingMode
  pub secret : Option Text
  pub icon_path : Option Text
  pub motd_line1 : Option Text
  pub motd_line2 : Option Text

pub record TelemetryConfig : Type 0 where
  pub enabled : Bool
  pub endpoint : Text
  pub interval_secs : ℕ
  pub public : Bool
  pub server_name : Option Text

pub record BedrockConfig : Type 0 where
  pub enabled : Bool
  pub bind_address : Text
  pub motd : Text
  pub sub_motd : Text
  pub protocol_version : ℕ
  pub version_name : Text
  pub level_name : Text
  pub game_mode : Text
  pub game_mode_id : ℕ
  pub max_players : ℕ
  pub server_guid : ℕ

pub record Config : Type 0 where
  pub server : ServerConfig
  pub network : NetworkConfig
  pub motd : MotdConfig
  pub security : SecurityConfig
  pub routing : RoutingConfig
  pub servers : List (Text × BackendConfig)
  pub telemetry : TelemetryConfig
  pub bedrock : BedrockConfig
  pub permissions : PermissionsConfig
  pub plugins : PluginConfig
