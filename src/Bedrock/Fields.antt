-- ===== src/Bedrock/Fields.antt =====
-- What a client that splits the advertisement at semicolons finds.
use vine.Base.{
  ℕ, ℤ, codes, Option, some, none, as_i32, refl, arith, List, [], ◌∷◌, ◌++◌, Text, All, ◌≡◌, ◌≢◌,
  ap, ◌∙◌,
}
use vine.Network.Proxy.{split_on}
use vine.Network.Proxy.Split.{split_on-front, split_on-last}
use vine.Bedrock.{Serial, BedrockStatusHandler, put_fields, advertised, build_advertisement_string}

-- No part of the format holds a semicolon.
abbrev pub NoSemicolon : Text → Type 0
NoSemicolon = All (λ c. c ≢ b';')

split_on-put_fields :
    (ts : List Text) → All NoSemicolon ts → split_on b';' (put_fields ts) ≡ ts ++ [] ∷ []
unfolding put_fields
split_on-put_fields [] h = split_on-last b';' [] tt
split_on-put_fields (t ∷ ts) h =
    split_on-front b';' t (put_fields ts) h.0 ∙ ap (◌∷◌ t) (split_on-put_fields ts h.1)

-- The parts of an advertisement, as a client names them.
pub record Advertisement : Type 0 where
  pub edition : Text
  pub motd : Text
  pub protocol : Text
  pub version : Text
  pub online : Text
  pub max_players : Text
  pub guid : Text
  pub level_name : Text
  pub game_mode : Text
  pub game_mode_id : Text
  pub port_v4 : Text
  pub port_v6 : Text
  pub editor_mode : Text

-- A client goes by the places of the parts, and wants nothing behind the last semicolon.
pub read_parts : List Text → Option Advertisement
read_parts (a ∷ b ∷ c ∷ d ∷ e ∷ f ∷ g ∷ h ∷ i ∷ j ∷ k ∷ l ∷ m ∷ [] ∷ []) = some (record {
  edition = a;
  motd = b;
  protocol = c;
  version = d;
  online = e;
  max_players = f;
  guid = g;
  level_name = h;
  game_mode = i;
  game_mode_id = j;
  port_v4 = k;
  port_v6 = l;
  editor_mode = m;
})
read_parts _ = none

-- What a server has to tell: its configuration, its players, its number and its ports.
abbrev pub parts_of : Serial → BedrockStatusHandler → Advertisement
parts_of p h = record {
  edition = codes "MCPE";
  motd = h.config.motd ++ (codes "\n" ++ h.config.sub_motd);
  protocol = p.show_ℕ h.config.protocol_version;
  version = h.config.version_name;
  online = p.show_ℤ (as_i32 h.online_players);
  max_players = p.show_ℕ h.config.max_players;
  guid = p.show_ℕ h.server_guid;
  level_name = h.config.level_name;
  game_mode = h.config.game_mode;
  game_mode_id = p.show_ℕ h.config.game_mode_id;
  port_v4 = p.show_ℕ h.ipv4_port;
  port_v6 = p.show_ℕ h.ipv6_port;
  editor_mode = codes "0";
}

-- The texts of the configuration, and all printed numbers, hold no semicolon.
pub record IsFree (p : Serial) (h : BedrockStatusHandler) : Type 0 where
  pub motd_free : NoSemicolon h.config.motd
  pub sub_motd_free : NoSemicolon h.config.sub_motd
  pub version_free : NoSemicolon h.config.version_name
  pub level_free : NoSemicolon h.config.level_name
  pub mode_free : NoSemicolon h.config.game_mode
  pub unsigned_free : (n : ℕ) → NoSemicolon (p.show_ℕ n)
  pub signed_free : (n : ℤ) → NoSemicolon (p.show_ℤ n)

NoSemicolon-lines : (a b : Text) → NoSemicolon a → NoSemicolon b → NoSemicolon (a ++ 10 ∷ b)
NoSemicolon-lines [] b free later = ((λ e. absurd (omega arith)), later)
NoSemicolon-lines (c ∷ a) b free later = (free.0, NoSemicolon-lines a b free.1 later)

advertised-free :
    (p : Serial) (h : BedrockStatusHandler) → IsFree p h → All NoSemicolon (advertised p h)
unfolding advertised
advertised-free p h free = (
  (
    (λ e. absurd (omega arith)),
    ((λ e. absurd (omega arith)), ((λ e. absurd (omega arith)), ((λ e. absurd (omega arith)), tt))),
  ),
  (
    NoSemicolon-lines _ _ free.motd_free free.sub_motd_free,
    (
      free.unsigned_free _,
      (
        free.version_free,
        (
          free.signed_free _,
          (
            free.unsigned_free _,
            (
              free.unsigned_free _,
              (
                free.level_free,
                (
                  free.mode_free,
                  (
                    free.unsigned_free _,
                    (
                      free.unsigned_free _,
                      (free.unsigned_free _, (((λ e. absurd (omega arith)), tt), tt)),
                    ),
                  ),
                ),
              ),
            ),
          ),
        ),
      ),
    ),
  ),
)

-- A client that splits the advertisement at semicolons and goes by the places of the parts reads
-- the edition, both lines of the message, the protocol, the version, the players online, the most
-- players, the server's number, the level, the game mode and its number and both ports of the
-- server, and finds nothing behind the last semicolon: where neither the texts of the configuration
-- nor the printed numbers hold a semicolon.
pub build_advertisement_string-reads :
    (p : Serial) (h : BedrockStatusHandler)
    → IsFree p h
    → read_parts (split_on b';' (build_advertisement_string p h)) ≡ some (parts_of p h)
unfolding build_advertisement_string advertised read_parts
build_advertisement_string-reads p h free =
    rw (split_on-put_fields (advertised p h) (advertised-free p h free)) refl
