-- ===== src/Backend/Forwarding/Tests.antt =====
-- The payloads and the host on a concrete player, with a simple codec.
use mathlib.Core.Option.{some-injective}
use vine.Base.{
  as_i32, any, ℤ, pos, negsuc, ◌==◌, ◌++◌, Option, length, All, IpAddr, v4, text_eq_refl, ◌≢◌, refl,
  arith, [], ◌∷◌, none, some, codes, text_eq, ◌≡◌, Bool, true, false, if◌then◌else◌, Text,
}
use vine.Backend.Forwarding.{
  AuthenticatedPlayer, Codec, ok, velocity_payload, vine_payload, build_velocity_payload,
  build_vine_payload, build_bungeecord_host, get_vine_signing_key, to_be_bytes, write_player,
  write_properties, write_property, write_signature,
}
use vine.Backend.Forwarding.Readers.{Reader, get_bytes, Inverts, Inverts-bytes}
use vine.Backend.Forwarding.Payload.{Decoder, DecoderLaws}
use vine.Backend.Forwarding.Signed.{
  read_velocity, read_vine, build_velocity_payload-reads, build_vine_payload-reads,
}
use vine.Backend.Forwarding.Host.{build_bungeecord_host-splits}
use vine.Network.Proxy.{split_on}
use vine.Security.Sanitizer.{sanitize_host}

-- Numbers in one byte, texts behind their length, a signature that repeats what it signs.
abbrev put_number : ℤ → Option Text
put_number (pos n) = some (n ∷ [])
put_number (negsuc n) = none

abbrev get_number : Reader ℤ
get_number [] = none
get_number (n ∷ t) = some (pos n, t)

abbrev get_text : Reader Text
get_text [] = none
get_text (n ∷ t) = get_bytes n t

abbrev get_flag : Reader Bool
get_flag [] = none
get_flag (n ∷ t) = some (n == 1, t)

no_nul : (t : Text) → any (λ ch. ch == 0) t ≡ false → All (λ ch. ch ≢ 0) t
unfolding any
no_nul [] h = tt
no_nul (ch ∷ t) h = ((λ e. ground arith), no_nul t (ground arith))

abbrev codec : Codec
codec = record {
  put_varint = put_number;
  put_string = λ s. some (length s ∷ s);
  put_bool = λ b. some ((if b then 1 else 0) ∷ []);
  show_ip = λ ip. codes "192.0.2.1";
  show_simple = λ id. codes "d8f4a1e00f1b4c3a9f2e1a2b3c4d5e6f";
  to_json = λ ps. none;
  hmac = λ key message. some (key ++ message);
  sha256 = λ t. t;
  trim = λ t. t;
  hex_decode = λ t. none;
  hex_encode = λ t. t;
  sign = λ seed message. seed ++ message;
  public_key = λ seed. seed;
}

abbrev decoder : Decoder
decoder = record { get_varint = get_number; get_string = get_text; get_bool = get_flag }

number-Inverts : (n : ℤ) → Inverts get_number n (put_number n)
number-Inverts (pos n) bytes rest e = rw (← some-injective (n ∷ []) bytes e) refl
number-Inverts (negsuc n) bytes rest e = absurd cc

text-Inverts : (s : Text) → Inverts get_text s (some (length s ∷ s))
text-Inverts s bytes rest e =
    rw (← some-injective (length s ∷ s) bytes e) (Inverts-bytes s refl s rest refl)

flag-Inverts : (b : Bool) → Inverts get_flag b (some ((if b then 1 else 0) ∷ []))
flag-Inverts true bytes rest e = rw (← some-injective (1 ∷ []) bytes e) refl
flag-Inverts false bytes rest e = rw (← some-injective (0 ∷ []) bytes e) refl

laws : DecoderLaws codec decoder
laws = record { varint = number-Inverts; string = text-Inverts; bool = flag-Inverts }

abbrev steve : AuthenticatedPlayer
steve = record {
  id = 1 ∷ 2 ∷ 3 ∷ 4 ∷ 5 ∷ 6 ∷ 7 ∷ 8 ∷ 9 ∷ 10 ∷ 11 ∷ 12 ∷ 13 ∷ 14 ∷ 15 ∷ 16 ∷ [];
  username = codes "Steve";
  properties =
      record { name = codes "textures"; value = codes "x"; signature = some (codes "s") } ∷ [];
}

abbrev local : IpAddr
local = v4 (192 ∷ 0 ∷ 2 ∷ 1 ∷ [])

abbrev challenge : Text
challenge = 7 ∷ 7 ∷ 7 ∷ 7 ∷ 7 ∷ 7 ∷ 7 ∷ 7 ∷ 7 ∷ 7 ∷ 7 ∷ 7 ∷ 7 ∷ 7 ∷ 7 ∷ 7 ∷ []

abbrev secret : Text
secret = codes "key"

abbrev fields : Text
fields =
    (9 ∷ codes "192.0.2.1")
    ++ (steve.id
        ++ ((5 ∷ codes "Steve") ++ (1 ∷ 8 ∷ codes "textures" ++ (1 ∷ 120 ∷ 1 ∷ 1 ∷ 115 ∷ []))))

velocity_written : velocity_payload codec local steve ≡ some (4 ∷ fields)
unfolding velocity_payload write_player write_properties write_property write_signature as_i32
velocity_written = refl

vine_written :
    vine_payload codec 5 local steve challenge
    ≡ some (1 ∷ 0 ∷ 0 ∷ 0 ∷ 0 ∷ 0 ∷ 0 ∷ 0 ∷ 5 ∷ (challenge ++ fields))
unfolding vine_payload write_player write_properties write_property write_signature as_i32
    to_be_bytes
vine_written = refl

build_velocity_payload-reads_example :
    (signature : Text) × (build_velocity_payload codec secret local steve
      ≡ ok (signature ++ 4 ∷ fields))
    × (codec.hmac secret (4 ∷ fields) ≡ some signature)
    × (read_velocity decoder (4 ∷ fields) ≡ some ((pos 4, (codec.show_ip local, steve)), []))
build_velocity_payload-reads_example =
    build_velocity_payload-reads codec decoder laws local steve refl (omega arith) secret
      (4 ∷ fields) (λ key message. (key ++ message, refl)) (λ e. cc) velocity_written

build_vine_payload-reads_example :
    (seed : Text) × (signature : Text) × (get_vine_signing_key codec secret ≡ ok seed)
    × (build_vine_payload codec 5 secret local steve challenge
        ≡ ok (signature ++ 1 ∷ 0 ∷ 0 ∷ 0 ∷ 0 ∷ 0 ∷ 0 ∷ 0 ∷ 5 ∷ (challenge ++ fields)))
    × (text_eq signature (seed ++ 1 ∷ 0 ∷ 0 ∷ 0 ∷ 0 ∷ 0 ∷ 0 ∷ 0 ∷ 5 ∷ (challenge ++ fields)) ≡ true)
    × (read_vine decoder (1 ∷ 0 ∷ 0 ∷ 0 ∷ 0 ∷ 0 ∷ 0 ∷ 0 ∷ 5 ∷ (challenge ++ fields))
        ≡ some ((pos 1, 5, challenge, (codec.show_ip local, steve)), []))
build_vine_payload-reads_example =
    build_vine_payload-reads codec decoder laws local steve refl (omega arith)
      (λ key message signature. text_eq signature (key ++ message))
      (λ seed message. text_eq_refl (seed ++ message)) 5 secret challenge _ (omega arith) (λ e. cc)
      refl vine_written

build_bungeecord_host-splits_example :
    split_on 0 (build_bungeecord_host codec (sanitize_host (codes "play.example.com")) local steve)
    ≡ sanitize_host (codes "play.example.com")
      ∷ codes "192.0.2.1"
      ∷ codes "d8f4a1e00f1b4c3a9f2e1a2b3c4d5e6f"
      ∷ codes "[]"
      ∷ []
unfolding any
build_bungeecord_host-splits_example =
    build_bungeecord_host-splits codec (λ ip. no_nul (codes "192.0.2.1") refl)
      (λ id. no_nul (codes "d8f4a1e00f1b4c3a9f2e1a2b3c4d5e6f") refl) (λ ps t e. absurd cc)
      (codes "play.example.com") local steve
