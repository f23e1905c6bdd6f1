-- ===== src/Bedrock.antt =====
-- src/bedrock/status.rs: the answer to a Bedrock client's ping. The readers and the writer of the
-- protocol's packets and the printers of numbers are the parameter `Serial`.
pub mod Fields
pub mod Answer
mod Tests
use mathlib.Core.Option
use vine.Base.{
  ℕ, ℤ, ◌+◌, min, Bool, true, false, not, ◌==◌, if◌then◌else◌, List, [], ◌∷◌, ◌++◌, Option, none,
  some, Text, codes, text_eq, as_i32,
}
use vine.Config.{BedrockConfig}

pub record Serial : Type 0 where
  -- `SUnconnectedPing::read` and `SUnconnectedPingOpenConnections::read`: time and magic
  pub read_ping : Text → Option (ℕ × Text)
  pub read_ping_open : Text → Option (ℕ × Text)
  pub offline_message_magic : Text
  -- `CUnconnectedPong::write`, of time, server and advertisement
  pub write_pong : ℕ → ℕ → Text → Option Text
  -- `to_string` of unsigned and signed numbers
  pub show_ℕ : ℕ → Text
  pub show_ℤ : ℤ → Text

pub record BedrockStatusHandler : Type 0 where
  pub config : BedrockConfig
  pub online_players : ℕ
  pub server_guid : ℕ
  pub ipv4_port : ℕ
  pub ipv6_port : ℕ

-- `random` is what the generator gives. The sum saturates at the largest `u16`.
pub new : BedrockConfig → ℕ → ℕ → ℕ → BedrockStatusHandler
new config online_players ipv4_port random = record {
  config = config;
  online_players = online_players;
  server_guid = if not (config.server_guid == 0) then config.server_guid else random;
  ipv4_port = ipv4_port;
  ipv6_port = min 65535 (ipv4_port + 1);
}

-- Each of the parts with a semicolon behind it.
put_fields : List Text → Text
put_fields [] = []
put_fields (t ∷ ts) = t ++ b';' ∷ put_fields ts

module _ (p : Serial) where
  -- The parts of the format, in its order.
  pub advertised : BedrockStatusHandler → List Text
  advertised h =
      codes "MCPE"
      ∷ (h.config.motd ++ 10 ∷ h.config.sub_motd)
      ∷ p.show_ℕ h.config.protocol_version
      ∷ h.config.version_name
      ∷ p.show_ℤ (as_i32 h.online_players)
      ∷ p.show_ℕ h.config.max_players
      ∷ p.show_ℕ h.server_guid
      ∷ h.config.level_name
      ∷ h.config.game_mode
      ∷ p.show_ℕ h.config.game_mode_id
      ∷ p.show_ℕ h.ipv4_port
      ∷ p.show_ℕ h.ipv6_port
      ∷ codes "0"
      ∷ []

  pub build_advertisement_string : BedrockStatusHandler → Text
  unfolding put_fields advertised
  build_advertisement_string h = put_fields (advertised h)

  -- RAKNET_UNCONNECTED_PING_ID and RAKNET_UNCONNECTED_PING_OPEN_ID
  read_request : ℕ → Text → Option (ℕ × Text)
  read_request packet_id payload =
      if packet_id == 0x01
      then p.read_ping payload
      else if packet_id == 0x02
      then p.read_ping_open payload
      else none

  -- RAKNET_UNCONNECTED_PONG_ID in front of the pong.
  pong : BedrockStatusHandler → ℕ → Option Text
  pong h time =
      Option.map (◌∷◌ 0x1c) (p.write_pong time h.server_guid (build_advertisement_string h))

  answer : BedrockStatusHandler → Option (ℕ × Text) → Option Text
  unfolding pong
  answer h none = none
  answer h (some (time, magic)) =
      if not (text_eq magic p.offline_message_magic) then none else pong h time

  pub handle_packet : BedrockStatusHandler → Text → Option Text
  unfolding read_request answer
  handle_packet h [] = none
  handle_packet h (packet_id ∷ payload) = answer h (read_request packet_id payload)
