-- ===== src/Backend/Forwarding/Payload.antt =====
-- A reader of the fields that both payloads end with.
use vine.Base.{
  as_i32, ℕ, zero, suc, ℤ, pos, negsuc, ◌%◌, ◌^◌, ◌<◌, ◌≡◌, refl, arith, Bool, true, false, List,
  [], ◌∷◌, Option, none, some, Text, length, IpAddr,
}
use vine.Backend.Forwarding.{
  Property, AuthenticatedPlayer, Codec, write_signature, write_property, write_properties,
  write_player,
}
use vine.Backend.Forwarding.Readers.{
  Reader, give, chain, get_bytes, Inverts, Inverts-chain, Inverts-last, Inverts-bytes,
}

pub record Decoder : Type 0 where
  pub get_varint : Reader ℤ
  pub get_string : Reader Text
  pub get_bool : Reader Bool

-- The protocol's readers take back what its writers write.
pub record DecoderLaws (c : Codec) (d : Decoder) : Type 0 where
  pub varint : (n : ℤ) → Inverts d.get_varint n (c.put_varint n)
  pub string : (s : Text) → Inverts d.get_string s (c.put_string s)
  pub bool : (b : Bool) → Inverts d.get_bool b (c.put_bool b)

-- The count of a list; a negative one stands for none.
count : ℤ → ℕ
count (pos n) = n
count (negsuc n) = 0

pub as_i32_small : (n : ℕ) → n < 2 ^ 31 → as_i32 n ≡ pos n
unfolding as_i32
as_i32_small n h = let same : n % 2 ^ 32 ≡ n = omega arith in rw same (ground arith)

module _ (d : Decoder) where
  open d use {get_varint, get_string, get_bool}

  read_signature : Text → Text → Bool → Reader Property
  read_signature name value false = give (record { name = name; value = value; signature = none })
  read_signature name value true =
      chain get_string λ sig. give (record { name = name; value = value; signature = some sig })

  read_property : Reader Property
  read_property =
      chain get_string λ name. chain get_string λ value. chain get_bool (read_signature name value)

  read_properties : ℕ → Reader (List Property)
  read_properties zero = give []
  read_properties (suc n) = chain read_property λ p. chain (read_properties n) λ ps. give (p ∷ ps)

  -- The printed address and the player.
  pub read_player : Reader (Text × AuthenticatedPlayer)
  read_player = chain get_string λ ip. chain (get_bytes 16) λ id. chain get_string λ name.
      chain get_varint λ n.
        chain (read_properties (count n))
          λ ps. give (ip, record { id = id; username = name; properties = ps })

  module _ (c : Codec) (laws : DecoderLaws c d) where
    signature-Inverts :
        (name value : Text) (o : Option Text)
        → Inverts
            (chain get_bool (read_signature name value))
            (record { name = name; value = value; signature = o })
            (write_signature c o)
    unfolding write_signature read_signature
    signature-Inverts name value none =
        Inverts-last get_bool (read_signature name value) (laws.bool false) (λ t. refl)
    signature-Inverts name value (some sig) =
        Inverts-chain get_bool (read_signature name value) (laws.bool true)
          (Inverts-last get_string _ (laws.string sig) (λ t. refl))

    property-Inverts : (p : Property) → Inverts read_property p (write_property c p)
    unfolding write_property read_property
    property-Inverts p = Inverts-chain get_string _ (laws.string p.name) (
        Inverts-chain get_string _ (laws.string p.value)
          (signature-Inverts p.name p.value p.signature))

    properties-Inverts :
        (ps : List Property) → Inverts (read_properties (length ps)) ps (write_properties c ps)
    unfolding write_properties read_properties
    properties-Inverts [] = λ bytes rest h. cc
    properties-Inverts (p ∷ ps) =
        Inverts-chain read_property _ (property-Inverts p)
          (Inverts-last (read_properties (length ps)) _ (properties-Inverts ps) (λ t. refl))

    pub player-Inverts :
        (ip : IpAddr) (player : AuthenticatedPlayer)
        → length player.id ≡ 16
        → length player.properties < 2 ^ 31
        → Inverts read_player (c.show_ip ip, player) (write_player c ip player)
    unfolding write_player read_player count
    player-Inverts ip player h k = Inverts-chain get_string _ (laws.string (c.show_ip ip)) (
        Inverts-chain (get_bytes 16) _ (Inverts-bytes player.id h) (
          Inverts-chain get_string _ (laws.string player.username) (
            rw (as_i32_small (length player.properties) k) (
              Inverts-chain get_varint _ (laws.varint (pos (length player.properties))) (
                Inverts-last (read_properties (length player.properties)) _
                  (properties-Inverts player.properties) (λ t. refl))))))
