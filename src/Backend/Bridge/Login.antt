-- ===== src/Backend/Bridge/Login.antt =====
-- src/backend/bridge.rs, `login_backend`: the login at a backend. What the backend sends is a list
-- of packets, behind which it is silent. The packets' identities, their readers and the outcome of
-- each write are the parameter `Protocol`.
pub mod Cases
pub mod Replies
pub mod Answers
pub mod Success
mod Tests
use mathlib.Core.Option
use vine.Base.{
  ℕ, ℤ, pos, negsuc, ◌==◌, Bool, false, leb, if◌then◌else◌, List, [], ◌∷◌, ◌++◌, Option, none, some,
  Text, codes, as_u32, text_eq, length, take, drop, IpAddr,
}
use vine.Config.{
  BackendConfig, Config, NetworkConfig, ForwardingMode, no_forwarding, bungee_cord, velocity,
  vine_forwarding,
}
use vine.Backend.Forwarding.{
  AuthenticatedPlayer, ForwardingError, Built, ok, err, Codec, build_bungeecord_host,
  build_velocity_payload, build_vine_payload,
}
use vine.Backend.Bridge.{
  BridgeError, decode_error, encode_error, login_timeout, login_disconnected, velocity_error,
  vine_error,
}
use vine.Backend.Bridge.Connect.{Dialed, Connected, stream, gave_up, connect_to_backend}

-- The registry, the counter and the plugins, which other connections share, are the state of `Run`.
pub record BackendBridge : Type 0 where
  pub server_name : Text
  pub config : BackendConfig
  pub fallback_server : Option (Text × BackendConfig)
  pub client_ip : IpAddr
  pub client_version : ℕ
  pub virtual_host : Text
  pub player : AuthenticatedPlayer
  pub max_packets_per_sec : ℕ
  pub network_config : NetworkConfig
  pub compression_level : ℤ
  pub proxy_config : Config

-- What the proxy writes to the backend; the handshake names port 25565 and asks for a login.
pub data Outgoing : Type 0 where
  handshake : ℕ → Text → Outgoing
  login_start : Text → Text → Outgoing
  plugin_response : ℤ → Option Text → Outgoing

pub data Incoming : Type 0 where
  raw : ℤ → Text → Incoming
  broken : Text → Incoming

-- A reader's value and what is left, or its error as it is printed.
pub data Read (A : Type 0) : Type 0 where
  value : A → Text → Read A
  unreadable : Text → Read A

pub record Protocol : Type 0 where
  -- `to_id` of the four packets at the client's version
  pub login_disconnect_id : ℤ
  pub login_plugin_request_id : ℤ
  pub login_compression_id : ℤ
  pub login_success_id : ℤ
  pub get_str : Text → Read Text
  pub get_var_int : Text → Read ℤ
  -- The error of serializing or writing a packet behind those that were written.
  pub write_error : List Outgoing → Outgoing → Option Text
  pub show_forwarding_error : ForwardingError → Text

pub record LoginState : Type 0 where
  pub written : List Outgoing
  pub decoder_threshold : Option ℕ
  pub encoder_compression : Option (ℕ × ℕ)

pub data Logged : Type 0 where
  logged_in : Text → Logged
  login_failed : BridgeError → Logged

-- The loop goes on or is left.
pub data Step : Type 0 where
  going : LoginState → Step
  finished : LoginState → Logged → Step

unfoldable pub same_id : ℤ → ℤ → Bool
same_id (pos a) (pos b) = a == b
same_id (negsuc a) (negsuc b) = a == b
same_id _ _ = false

-- The sixteen bytes of the backend's challenge: behind a leading byte if there are more, and zeros
-- if there are fewer.
pub challenge_of : Text → Text
challenge_of cur =
    if leb 17 (length cur)
    then take 16 (drop 1 cur)
    else if leb 16 (length cur)
    then take 16 cur
    else 0 ∷ 0 ∷ 0 ∷ 0 ∷ 0 ∷ 0 ∷ 0 ∷ 0 ∷ 0 ∷ 0 ∷ 0 ∷ 0 ∷ 0 ∷ 0 ∷ 0 ∷ 0 ∷ []

module _ (c : Codec) (p : Protocol) where
  wrote : LoginState → Outgoing → Option Text → Step
  wrote s packet none = going (record s { written = s.written ++ packet ∷ [] })
  wrote s packet (some e) = finished s (login_failed (encode_error e))

  -- Serialize, write and flush.
  send : LoginState → Outgoing → Step
  unfolding wrote
  send s packet = wrote s packet (p.write_error s.written packet)

  respond : LoginState → ℤ → (Text → BridgeError) → Built Text → Step
  unfolding send
  respond s message_id wrap (err e) = finished s (login_failed (wrap (p.show_forwarding_error e)))
  respond s message_id wrap (ok payload) = send s (plugin_response message_id (some payload))

  module _ (b : BackendBridge) (active_config : BackendConfig) (now : ℕ) where
    answer_vine : LoginState → ℤ → Text → Option Text → Step
    unfolding respond challenge_of
    answer_vine s message_id cur none =
        finished s (login_failed (vine_error (codes "Secret missing")))
    answer_vine s message_id cur (some secret) =
        respond s message_id vine_error
          (build_vine_payload c now secret b.client_ip b.player (challenge_of cur))

    answer_velocity : LoginState → ℤ → Option Text → Step
    unfolding respond
    answer_velocity s message_id none =
        finished s (login_failed (velocity_error (codes "Secret missing")))
    answer_velocity s message_id (some secret) =
        respond s message_id velocity_error (build_velocity_payload c secret b.client_ip b.player)

    -- VINE_PLAYER_INFO_CHANNEL and VELOCITY_PLAYER_INFO_CHANNEL
    answer : LoginState → ℤ → Text → Text → Step
    unfolding answer_vine answer_velocity send
    answer s message_id channel cur =
        if text_eq channel (codes "vine:player_info")
        then answer_vine s message_id cur active_config.secret
        else if text_eq channel (codes "velocity:player_info")
        then answer_velocity s message_id active_config.secret
        else send s (plugin_response message_id none)

    with_channel : LoginState → ℤ → Read Text → Step
    unfolding answer
    with_channel s message_id (value channel cur) = answer s message_id channel cur
    with_channel s message_id (unreadable e) = finished s (login_failed (decode_error e))

    pub plugin_request : LoginState → Read ℤ → Step
    unfolding with_channel
    plugin_request s (value message_id cur) = with_channel s message_id (p.get_str cur)
    plugin_request s (unreadable e) = finished s (login_failed (decode_error e))

    pub set_compression : LoginState → Read ℤ → Step
    set_compression s (value (pos threshold) cur) = going (record s {
      decoder_threshold = some threshold;
      encoder_compression = some (threshold, as_u32 b.compression_level);
    })
    set_compression s (value (negsuc n) cur) = going s
    set_compression s (unreadable e) = finished s (login_failed (decode_error e))

    pub disconnect_reason : Read Text → Text
    disconnect_reason (value text cur) = text
    disconnect_reason (unreadable e) = codes "Disconnected by backend during login"

    -- One round of the loop.
    pub handle_packet : LoginState → Incoming → Step
    unfolding plugin_request set_compression disconnect_reason
    handle_packet s (broken e) = finished s (login_failed (decode_error e))
    handle_packet s (raw id payload) =
        if same_id id p.login_disconnect_id
        then finished s (login_failed (login_disconnected (disconnect_reason (p.get_str payload))))
        else if same_id id p.login_plugin_request_id
        then plugin_request s (p.get_var_int payload)
        else if same_id id p.login_compression_id
        then set_compression s (p.get_var_int payload)
        else if same_id id p.login_success_id
        then finished s (logged_in (Option.get_or (c.put_varint id) [] ++ payload))
        else going s

    continue_with : Step → (LoginState → LoginState × Logged) → LoginState × Logged
    continue_with (going s) rest = rest s
    continue_with (finished s result) rest = (s, result)

    login_loop : Text → List Incoming → LoginState → LoginState × Logged
    unfolding handle_packet continue_with
    login_loop server_name [] s = (s, login_failed (login_timeout server_name))
    login_loop server_name (packet ∷ packets) s =
        continue_with (handle_packet s packet) (login_loop server_name packets)

    backend_host : ForwardingMode → Text
    backend_host bungee_cord = build_bungeecord_host c b.virtual_host b.client_ip b.player
    backend_host velocity = b.virtual_host
    backend_host vine_forwarding = b.virtual_host
    backend_host no_forwarding = b.virtual_host

    logged_out : LoginState
    logged_out = record { written = []; decoder_threshold = none; encoder_compression = none }

    login_on : Text → Connected (List Incoming) → LoginState × Logged
    unfolding login_loop backend_host logged_out send continue_with
    login_on server_name (gave_up e) = (logged_out, login_failed e)
    login_on server_name (stream packets) =
        continue_with
          (send logged_out (handshake b.client_version (backend_host active_config.forwarding)))
          (λ s.
            continue_with (send s (login_start b.player.username b.player.id))
              (login_loop server_name packets))

    unfoldable pub login_backend : Text → (ℕ → Dialed (List Incoming)) → LoginState × Logged
    unfolding login_on
    login_backend server_name dial =
        login_on server_name
          (connect_to_backend dial server_name b.network_config.backend_connect_timeout_secs
            b.network_config.backend_connect_retry_attempts).result
