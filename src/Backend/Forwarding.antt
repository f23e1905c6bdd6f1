-- ===== src/Backend/Forwarding.antt =====
-- src/backend/forwarding.rs: how the proxy tells a backend who the client is. Writers, ciphers and
-- printers of other packages are the parameter `Codec`; a failed write is `none`. A text is the
-- list of its bytes, and of its characters in `build_bungeecord_host`.
pub mod Readers
pub mod Payload
pub mod Signed
pub mod Host
mod Tests
use mathlib.Core.Option
use vine.Base.{
  ℕ, ℤ, pos, negsuc, ◌-◌, ◌/◌, ◌%◌, ◌^◌, Bool, true, false, ◌&&◌, ltb, ◌==◌, if◌then◌else◌, List,
  [], ◌∷◌, ◌++◌, Option, none, some, Text, codes, as_i32, length, IpAddr,
}

-- `pumpkin_protocol::Property`
pub record Property : Type 0 where
  pub name : Text
  pub value : Text
  pub signature : Option Text

-- src/auth.rs; an identity is its sixteen bytes.
pub record AuthenticatedPlayer : Type 0 where
  pub id : Text
  pub username : Text
  pub properties : List Property

pub data ForwardingError : Type 0 where
  missing_velocity_secret missing_vine_secret hmac_error writing_error : ForwardingError

pub data Built (A : Type 0) : Type 0 where
  ok : A → Built A
  err : ForwardingError → Built A

pub record Codec : Type 0 where
  -- `VarInt::encode`, `write_string` and `write_bool`
  pub put_varint : ℤ → Option Text
  pub put_string : Text → Option Text
  pub put_bool : Bool → Option Text
  -- `to_string` of an address, and of an identity without hyphens
  pub show_ip : IpAddr → Text
  pub show_simple : Text → Text
  -- `serde_json::to_string`
  pub to_json : List Property → Option Text
  -- HMAC-SHA256 by key and message, which refuses a key with `none`
  pub hmac : Text → Text → Option Text
  pub sha256 : Text → Text
  pub trim : Text → Text
  pub hex_decode : Text → Option Text
  pub hex_encode : Text → Text
  -- Ed25519 by seed and message, and the public key of a seed
  pub sign : Text → Text → Text
  pub public_key : Text → Text

-- A write behind another, which stops at the first failure.
infixr 5 ◌▹◌
abbrev pub ◌▹◌ : Option Text → Option Text → Option Text
none ▹ next = none
some bytes ▹ next = Option.map (◌++◌ bytes) next

-- `u64::to_be_bytes`
pub to_be_bytes : ℕ → Text
to_be_bytes n =
    n / 2 ^ 56 % 256
    ∷ n / 2 ^ 48 % 256
    ∷ n / 2 ^ 40 % 256
    ∷ n / 2 ^ 32 % 256
    ∷ n / 2 ^ 24 % 256
    ∷ n / 2 ^ 16 % 256
    ∷ n / 2 ^ 8 % 256
    ∷ n % 256
    ∷ []

module _ (c : Codec) where
  open c use {
    put_varint, put_string, put_bool, show_ip, show_simple, to_json, hmac, sha256, trim, hex_decode,
    hex_encode, sign, public_key,
  }

  write_signature : Option Text → Option Text
  write_signature none = put_bool false
  write_signature (some sig) = put_bool true ▹ put_string sig

  write_property : Property → Option Text
  unfolding write_signature
  write_property p = put_string p.name ▹ put_string p.value ▹ write_signature p.signature

  -- The loop over the properties.
  write_properties : List Property → Option Text
  unfolding write_property
  write_properties [] = some []
  write_properties (p ∷ ps) = write_property p ▹ write_properties ps

  -- The fields that both payloads end with.
  unfoldable pub write_player : IpAddr → AuthenticatedPlayer → Option Text
  unfolding write_properties
  write_player client_ip player =
      put_string (show_ip client_ip)
      ▹ some player.id
      ▹ put_string player.username
      ▹ put_varint (as_i32 (length player.properties))
      ▹ write_properties player.properties

  -- VELOCITY_FORWARDING_VERSION
  unfoldable pub velocity_payload : IpAddr → AuthenticatedPlayer → Option Text
  unfolding write_player
  velocity_payload client_ip player = put_varint (pos 4) ▹ write_player client_ip player

  -- The signature in front of a payload.
  with_signature : Text → Option Text → Built Text
  with_signature payload none = err hmac_error
  with_signature payload (some signature) = ok (signature ++ payload)

  sign_velocity : Text → Option Text → Built Text
  unfolding with_signature
  sign_velocity secret none = err writing_error
  sign_velocity secret (some payload) = with_signature payload (hmac secret payload)

  unfoldable pub build_velocity_payload : Text → IpAddr → AuthenticatedPlayer → Built Text
  unfolding sign_velocity velocity_payload
  build_velocity_payload [] client_ip player = err missing_velocity_secret
  build_velocity_payload (b ∷ bs) client_ip player =
      sign_velocity (b ∷ bs) (velocity_payload client_ip player)

  -- The seed of a secret that is not empty.
  pub vine_seed : Text → Text
  vine_seed secret = elim (hex_decode secret) [
    | none ↦ sha256 secret
    | some seed ↦ if length secret == 64 then seed else sha256 secret
  ]

  trimmed_key : Text → Built Text
  unfolding vine_seed
  trimmed_key [] = err missing_vine_secret
  trimmed_key (b ∷ bs) = ok (vine_seed (b ∷ bs))

  -- A signing key is its seed.
  pub get_vine_signing_key : Text → Built Text
  unfolding trimmed_key
  get_vine_signing_key secret = trimmed_key (trim secret)

  public_key_of : Built Text → Built Text
  public_key_of (err e) = err e
  public_key_of (ok seed) = ok (hex_encode (public_key seed))

  pub get_vine_public_key_hex : Text → Built Text
  unfolding public_key_of
  get_vine_public_key_hex secret = public_key_of (get_vine_signing_key secret)

  -- VINE_FORWARDING_VERSION; `now` is the reading of the clock in seconds.
  pub vine_payload : ℕ → IpAddr → AuthenticatedPlayer → Text → Option Text
  vine_payload now client_ip player challenge =
      put_varint (pos 1) ▹ some (to_be_bytes now) ▹ some challenge ▹ write_player client_ip player

  sign_vine : Option Text → Built Text → Built Text
  sign_vine payload (err e) = err e
  sign_vine none (ok seed) = err writing_error
  sign_vine (some payload) (ok seed) = ok (sign seed payload ++ payload)

  pub build_vine_payload : ℕ → Text → IpAddr → AuthenticatedPlayer → Text → Built Text
  unfolding sign_vine
  build_vine_payload now secret client_ip player challenge =
      sign_vine (vine_payload now client_ip player challenge) (get_vine_signing_key secret)

  -- `format!("{}\0{}\0{}\0{}", …)`
  pub build_bungeecord_host : Text → IpAddr → AuthenticatedPlayer → Text
  build_bungeecord_host original_host client_ip player =
      original_host
      ++ 0
        ∷ (show_ip client_ip
            ++ 0
              ∷ (show_simple player.id
                  ++ 0 ∷ Option.get_or (to_json player.properties) (codes "[]")))
