-- ===== src/Config/Defaults.antt =====
-- src/config.rs, src/bedrock/config.rs: the configuration that is written where there is none.
use vine.Base.{◌*◌, true, false, [], ◌∷◌, none, some, Text, codes, pos, insert, text_key}
use vine.Permissions.{default_config}
use vine.Config.{
  PluginConfig, ServerConfig, NetworkConfig, MotdConfig, SecurityConfig, RoutingConfig,
  no_forwarding, bungee_cord, velocity, BackendConfig, TelemetryConfig, BedrockConfig, Config,
}

abbrev default_plugins_dir : Text
default_plugins_dir = codes "./plugins"

abbrev pub default_plugins : PluginConfig
default_plugins = record { enabled = true; plugin_dir = default_plugins_dir }

abbrev pub default_network : NetworkConfig
default_network = record {
  tcp_nodelay = true;
  tcp_keepalive_secs = 60;
  client_handshake_timeout_secs = 10;
  client_status_timeout_secs = 5;
  client_login_timeout_secs = 15;
  backend_connect_timeout_secs = 5;
  backend_login_timeout_secs = 15;
  backend_connect_retry_attempts = 2;
  recv_buffer_size = none;
  send_buffer_size = none;
  listen_backlog = 1024;
  proxy_protocol = false;
  log_pings = false;
}

abbrev default_telemetry_endpoint : Text
default_telemetry_endpoint = codes "https://market.pumpkinmc.org/api/v1/rest/telemetry/heartbeat"

abbrev pub default_telemetry : TelemetryConfig
default_telemetry = record {
  enabled = true;
  endpoint = default_telemetry_endpoint;
  interval_secs = 300;
  public = false;
  server_name = none;
}

abbrev pub default_bedrock : BedrockConfig
default_bedrock = record {
  enabled = true;
  bind_address = codes "0.0.0.0:19132";
  motd = codes "§a§lVine §7» §fHigh-Performance Minecraft Proxy";
  sub_motd = codes "Bedrock Support • 1.26.x";
  protocol_version = 2169;
  version_name = codes "1.26.45";
  level_name = codes "Vine Proxy";
  game_mode = codes "Survival";
  game_mode_id = 0;
  max_players = 100;
  server_guid = 0;
}

abbrev pub lobby : BackendConfig
lobby = record {
  address = codes "127.0.0.1:25566";
  forwarding = velocity;
  secret = some (codes "vine-velocity-secret-change-me");
  icon_path = none;
  motd_line1 = none;
  motd_line2 = none;
}

abbrev pub survival : BackendConfig
survival = record {
  address = codes "127.0.0.1:25567";
  forwarding = bungee_cord;
  secret = none;
  icon_path = none;
  motd_line1 = some (codes "§b§lVine Survival §7» §fWelcome back!");
  motd_line2 = some (codes "§7Custom world • Economy • Land Claims");
}

abbrev pub vanilla : BackendConfig
vanilla = record {
  address = codes "127.0.0.1:25568";
  forwarding = no_forwarding;
  secret = none;
  icon_path = none;
  motd_line1 = none;
  motd_line2 = none;
}

abbrev default_server_config : ServerConfig
default_server_config = record {
  bind_address = codes "0.0.0.0:25565";
  online_mode = true;
  prevent_proxy_connections = true;
  compression_threshold = pos 256;
  compression_level = pos 6;
  shutdown_timeout_secs = 10;
}

abbrev default_motd : MotdConfig
default_motd = record {
  line1 = codes "§a§lVine §7» §fHigh-Performance Minecraft Proxy";
  line2 = codes "§7Multi-version support §8• §e1.7.x - 26.x";
  max_players = 100;
  version_name = codes "Vine 1.7.x - 26.x";
  protocol_version = pos 776;
  sample_players = codes "§aVine Multi-Version Proxy" ∷ codes "§7Secure • Fast • Reliable" ∷ [];
  icon_path = none;
  show_sample_players = true;
}

abbrev pub default_security : SecurityConfig
default_security = record {
  rate_limit_enabled = true;
  max_connections_per_sec = 5;
  connection_burst = 10;
  max_packets_per_sec = 500;
  max_packet_size = 2 * 1024 * 1024;
  validate_usernames = true;
}

abbrev pub default_routing : RoutingConfig
default_routing = record {
  default_server = codes "lobby";
  fallback_server = some (codes "survival");
  forced_hosts =
      insert (insert [] (codes "survival.example.com") (codes "survival"))
        (codes "vanilla.example.com") (codes "vanilla");
  try_fallback_on_connect_failure = true;
}

abbrev pub default : Config
default = record {
  server = default_server_config;
  network = default_network;
  motd = default_motd;
  security = default_security;
  routing = default_routing;
  servers =
      insert (insert (insert [] (codes "lobby") lobby) (codes "survival") survival)
        (codes "vanilla") vanilla;
  telemetry = default_telemetry;
  bedrock = default_bedrock;
  permissions = default_config;
  plugins = default_plugins;
}
