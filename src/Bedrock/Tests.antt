-- ===== src/Bedrock/Tests.antt =====
-- Pings of a server with the default configuration.
use vine.Base.{◌==◌, false, [], ◌∷◌, some, Text, codes, any, ◌≡◌, ◌↔◌, refl, arith}
use vine.Config.Defaults.{default_bedrock}
use vine.Network.Proxy.{split_on}
use vine.Bedrock.{Serial, BedrockStatusHandler, new, build_advertisement_string, handle_packet}
use vine.Bedrock.Fields.{
  NoSemicolon, IsFree, read_parts, parts_of, build_advertisement_string-reads,
}
use vine.Bedrock.Answer.{Answers, handle_packet_iff}

-- A ping is its magic alone, at the instant 5; every number prints as one digit.
abbrev serial : Serial
serial = record {
  read_ping = λ payload. some (5, payload);
  read_ping_open = λ payload. some (6, payload);
  offline_message_magic = 9 ∷ [];
  write_pong = λ time guid advertisement. some (time ∷ guid ∷ advertisement);
  show_ℕ = λ n. codes "1";
  show_ℤ = λ n. codes "2";
}

abbrev handler : BedrockStatusHandler
handler = new default_bedrock 3 19132 77

no_semicolon : (t : Text) → any (λ c. c == b';') t ≡ false → NoSemicolon t
unfolding any
no_semicolon [] h = tt
no_semicolon (c ∷ t) h = ((λ e. ground arith), no_semicolon t (ground arith))

handler-IsFree : IsFree serial handler
unfolding any new
handler-IsFree = record {
  motd_free = no_semicolon handler.config.motd refl;
  sub_motd_free = no_semicolon handler.config.sub_motd refl;
  version_free = no_semicolon handler.config.version_name refl;
  level_free = no_semicolon handler.config.level_name refl;
  mode_free = no_semicolon handler.config.game_mode refl;
  unsigned_free = λ n. no_semicolon (serial.show_ℕ n) refl;
  signed_free = λ n. no_semicolon (serial.show_ℤ n) refl;
}

build_advertisement_string-reads_example :
    read_parts (split_on b';' (build_advertisement_string serial handler))
    ≡ some (parts_of serial handler)
build_advertisement_string-reads_example =
    build_advertisement_string-reads serial handler handler-IsFree

handle_packet_iff_example :
    (handle_packet serial handler (1 ∷ 9 ∷ [])
      ≡ some (0x1c ∷ 5 ∷ 77 ∷ build_advertisement_string serial handler))
    ↔ Answers serial handler
        (1 ∷ 9 ∷ [])
        (0x1c ∷ 5 ∷ 77 ∷ build_advertisement_string serial handler)
handle_packet_iff_example =
    handle_packet_iff serial handler (1 ∷ 9 ∷ [])
      (0x1c ∷ 5 ∷ 77 ∷ build_advertisement_string serial handler)
