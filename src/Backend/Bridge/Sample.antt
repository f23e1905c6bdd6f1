-- ===== src/Backend/Bridge/Sample.antt =====
-- A player, a codec and a backend on which the theorems on src/backend/bridge.rs are tried.
use vine.Base.{
  ℕ, ℤ, pos, negsuc, ◌==◌, if◌then◌else◌, List, [], ◌∷◌, none, some, Text, codes, length, leb, take,
  drop, v4,
}
use vine.Config.{BackendConfig, velocity}
use vine.Config.Defaults.{default}
use vine.Backend.Forwarding.{Codec}
use vine.Backend.Bridge.Connect.{Dialed, connected, silent}
use vine.Backend.Bridge.Login.{BackendBridge, Incoming, raw, Read, value, unreadable, Protocol}

-- Numbers in one byte, texts behind their length.
abbrev pub codec : Codec
codec = record {
  put_varint = λ n. elim n [ pos k ↦ some (k ∷ []) | negsuc k ↦ none ];
  put_string = λ s. some (length s ∷ s);
  put_bool = λ b. some ((if b then 1 else 0) ∷ []);
  show_ip = λ ip. codes "192.0.2.1";
  show_simple = λ id. codes "d8f4a1e00f1b4c3a9f2e1a2b3c4d5e6f";
  to_json = λ ps. none;
  hmac = λ key message. some key;
  sha256 = λ t. t;
  trim = λ t. t;
  hex_decode = λ t. none;
  hex_encode = λ t. t;
  sign = λ seed message. seed;
  public_key = λ seed. seed;
}

abbrev read_number : Text → Read ℤ
read_number [] = unreadable (codes "end")
read_number (n ∷ t) = value (pos n) t

abbrev read_text : Text → Read Text
read_text [] = unreadable (codes "end")
read_text (n ∷ t) =
    if leb n (length t) then value (take n t) (drop n t) else unreadable (codes "end")

abbrev pub protocol : Protocol
protocol = record {
  login_disconnect_id = pos 0;
  login_plugin_request_id = pos 4;
  login_compression_id = pos 3;
  login_success_id = pos 2;
  get_str = read_text;
  get_var_int = read_number;
  write_error = λ written packet. none;
  show_forwarding_error = λ e. codes "no secret";
}

abbrev pub lobby : BackendConfig
lobby = record {
  address = codes "127.0.0.1:25566";
  forwarding = velocity;
  secret = some (codes "key");
  icon_path = none;
  motd_line1 = none;
  motd_line2 = none;
}

abbrev pub bridge : BackendBridge
bridge = record {
  server_name = codes "lobby";
  config = lobby;
  fallback_server = none;
  client_ip = v4 (192 ∷ 0 ∷ 2 ∷ 1 ∷ []);
  client_version = 776;
  virtual_host = codes "play.example.org";
  player = record { id = 1 ∷ 2 ∷ 3 ∷ []; username = codes "Steve"; properties = [] };
  max_packets_per_sec = 500;
  network_config = default.network;
  compression_level = pos 4;
  proxy_config = default;
}

-- A backend that sets the compression, asks for the player and lets it in.
abbrev pub packets : List Incoming
packets =
    raw (pos 3) (64 ∷ [])
    ∷ raw (pos 4) (7 ∷ length (codes "velocity:player_info") ∷ codes "velocity:player_info")
    ∷ raw (pos 2) (1 ∷ 2 ∷ 3 ∷ [])
    ∷ []

-- It is found with the second attempt.
abbrev pub dial : ℕ → Dialed (List Incoming)
dial n = if n == 2 then connected packets else silent
