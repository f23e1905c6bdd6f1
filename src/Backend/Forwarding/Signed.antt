-- ===== src/Backend/Forwarding/Signed.antt =====
-- The payloads of src/backend/forwarding.rs as a backend reads and verifies them.
use vine.Base.{
  ℕ, ℤ, pos, ◌+◌, ◌*◌, ◌^◌, ◌<◌, ◌≡◌, ◌≢◌, refl, arith, Bool, true, [], ◌∷◌, ◌++◌, append-nil,
  Option, some, Text, length, IpAddr,
}
use vine.Backend.Forwarding.{
  AuthenticatedPlayer, Codec, ok, to_be_bytes, velocity_payload, with_signature, sign_velocity,
  build_velocity_payload, vine_payload, vine_seed, trimmed_key, get_vine_signing_key, sign_vine,
  build_vine_payload,
}
use vine.Backend.Forwarding.Readers.{
  Reader, give, chain, get_bytes, Inverts, Inverts-chain, Inverts-last, Inverts-bytes,
}
use vine.Backend.Forwarding.Payload.{Decoder, DecoderLaws, read_player, player-Inverts}

-- `u64::from_be_bytes`
abbrev pub from_be_bytes : Text → ℕ
from_be_bytes [] = 0
from_be_bytes (b ∷ bs) = b * 256 ^ length bs + from_be_bytes bs

from_be_bytes-to_be_bytes : (n : ℕ) → n < 2 ^ 64 → from_be_bytes (to_be_bytes n) ≡ n
unfolding to_be_bytes
from_be_bytes-to_be_bytes n h = omega arith

-- The format of the Velocity payload, its version first.
abbrev pub read_velocity : Decoder → Reader (ℤ × (Text × AuthenticatedPlayer))
read_velocity d =
    chain d.get_varint λ version. chain (read_player d) λ fields. give (version, fields)

-- The format of the Vine payload: version, time, challenge and fields.
abbrev pub read_vine : Decoder → Reader (ℤ × ℕ × Text × (Text × AuthenticatedPlayer))
read_vine d = chain d.get_varint λ version. chain (get_bytes 8) λ time.
    chain (get_bytes 16) λ challenge.
      chain (read_player d) λ fields. give (version, from_be_bytes time, challenge, fields)

module _ (c : Codec) (d : Decoder) (laws : DecoderLaws c d) (client_ip : IpAddr)
    (player : AuthenticatedPlayer) (id_size : length player.id ≡ 16)
    (few : length player.properties < 2 ^ 31) where
  read_velocity-Inverts :
      Inverts
        (read_velocity d)
        (pos 4, (c.show_ip client_ip, player))
        (velocity_payload c client_ip player)
  unfolding velocity_payload
  read_velocity-Inverts = Inverts-chain d.get_varint _ (laws.varint (pos 4)) (
      Inverts-last (read_player d) _ (player-Inverts d c laws client_ip player id_size few)
        (λ t. refl))

  read_vine-Inverts :
      (now : ℕ) (challenge : Text)
      → now < 2 ^ 64
      → length challenge ≡ 16
      → Inverts
          (read_vine d)
          (pos 1, now, challenge, (c.show_ip client_ip, player))
          (vine_payload c now client_ip player challenge)
  unfolding vine_payload
  read_vine-Inverts now challenge h k = Inverts-chain d.get_varint _ (laws.varint (pos 1)) (
      Inverts-chain (get_bytes 8) _ (Inverts-bytes (to_be_bytes now) (unfold to_be_bytes in refl)) (
        Inverts-chain (get_bytes 16) _ (Inverts-bytes challenge k) (
          Inverts-last (read_player d) _ (player-Inverts d c laws client_ip player id_size few)
            (λ t. rw (from_be_bytes-to_be_bytes now h)))))

  whole :
      {A : Type 0} (get : Reader A) {a : A} {w : Option Text} (payload : Text)
      → Inverts get a w
      → w ≡ some payload
      → get payload ≡ some (a, [])
  whole get payload f e = rw (append-nil payload) at (f payload [] e)

  -- The Velocity payload of a secret that is not empty is built; its signature is the HMAC of the
  -- fields under the secret, and a backend that reads the fields finds version 4, the client's
  -- printed address and the player: for an identity of sixteen bytes and fewer than 2 ^ 31
  -- properties, where the fields can be written, HMAC takes every key, and the protocol's readers
  -- take back what its writers write.
  pub build_velocity_payload-reads :
      (secret payload : Text)
      → ((key message : Text) → (signature : Text) × (c.hmac key message ≡ some signature))
      → secret ≢ []
      → velocity_payload c client_ip player ≡ some payload
      → (signature : Text) × (build_velocity_payload c secret client_ip player
          ≡ ok (signature ++ payload))
        × (c.hmac secret payload ≡ some signature)
        × (read_velocity d payload ≡ some ((pos 4, (c.show_ip client_ip, player)), []))
  unfolding build_velocity_payload sign_velocity with_signature
  build_velocity_payload-reads [] payload any_key filled e = absurd (filled refl)
  build_velocity_payload-reads (b ∷ bs) payload any_key filled e =
      let (signature, f) = any_key (b ∷ bs) payload in
      (signature, rw (e, f) refl, f, whole (read_velocity d) payload read_velocity-Inverts e)

  -- The Vine payload of a secret that is not blank is built under the signing key of the secret;
  -- its signature verifies under the public key of that key, and a backend that reads the fields
  -- finds version 1, the time, its own challenge, the client's printed address and the player: for
  -- a time below 2 ^ 64, a challenge and an identity of sixteen bytes and fewer than 2 ^ 31
  -- properties, where the fields can be written, signatures verify under their keys, and the
  -- protocol's readers take back what its writers write.
  pub build_vine_payload-reads :
      (verify : Text → Text → Text → Bool)
      → ((seed message : Text) → verify (c.public_key seed) message (c.sign seed message) ≡ true)
      → (now : ℕ) (secret challenge payload : Text) → now < 2 ^ 64
      → c.trim secret ≢ []
      → length challenge ≡ 16
      → vine_payload c now client_ip player challenge ≡ some payload
      → (seed : Text) × (signature : Text) × (get_vine_signing_key c secret ≡ ok seed)
        × (build_vine_payload c now secret client_ip player challenge ≡ ok (signature ++ payload))
        × (verify (c.public_key seed) payload signature ≡ true)
        × (read_vine d payload ≡ some ((pos 1, now, challenge, (c.show_ip client_ip, player)), []))
  unfolding build_vine_payload sign_vine trimmed_key get_vine_signing_key
  build_vine_payload-reads verify signed now secret challenge payload h filled k e =
      let (seed, f) = key_of (c.trim secret) filled in
      (
        seed,
        c.sign seed payload,
        f,
        rw (e, f) refl,
        signed seed payload,
        whole (read_vine d) payload (read_vine-Inverts now challenge h k) e,
      )
    where
      key_of : (t : Text) → t ≢ [] → (seed : Text) × (trimmed_key c t ≡ ok seed)
      key_of [] n = absurd (n refl)
      key_of (b ∷ bs) n = (vine_seed c (b ∷ bs), refl)
