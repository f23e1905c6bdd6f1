-- ===== src/Network/Proxy/RoundTrip.antt =====
-- A writer of v2 headers, as HAProxy's document lays them out, and what the parser reads of them.
use vine.Base.{
  ℕ, suc, ◌+◌, ◌/◌, ◌%◌, ◌≤◌, ◌<◌, true, false, leb, ltb, [], ◌∷◌, ◌++◌, Text, length, take, drop,
  IpAddr, v4, v6, length-append, take-length, drop-length, append_assoc, ◌≡◌, refl, ◌∙◌, ap, arith,
}
use vine.Network.Proxy.{
  ok, ◌>>=◌, SocketAddr, proxy_v2_magic, be16, byte_at, v2_v4, v2_v6, v2_address,
}
use vine.Network.Proxy.Bytes.{decode_address, decode_v2}

abbrev pub octets : IpAddr → Text
octets (v4 o) = o
octets (v6 o) = o

-- The bytes of an address of its family.
abbrev pub width : IpAddr → ℕ
width (v4 o) = 4
width (v6 o) = 16

-- TCP over the family.
abbrev pub family : IpAddr → ℕ
family (v4 o) = 0x11
family (v6 o) = 0x21

abbrev pub put16 : ℕ → Text → Text
put16 n rest = n / 256 ∷ n % 256 ∷ rest

-- A header of this command and family around its address block.
abbrev pub put_header : ℕ → ℕ → Text → Text
put_header command fam_proto block =
    proxy_v2_magic ++ ((0x20 + command) ∷ fam_proto ∷ put16 (length block) block)

-- Client and destination, and what a load balancer adds.
abbrev pub put_block : SocketAddr → SocketAddr → Text → Text
put_block src dst tlvs = octets src.ip ++ (octets dst.ip ++ put16 src.port (put16 dst.port tlvs))

-- The header of a proxied connection.
abbrev pub encode : SocketAddr → SocketAddr → Text → Text
encode src dst tlvs = put_header 1 (family src.ip) (put_block src dst tlvs)

be16_put : (n : ℕ) → be16 (n / 256) (n % 256) ≡ n
be16_put n = omega arith

byte_at_past : (a b : Text) (i : ℕ) {n : ℕ} → length a ≡ n → byte_at (a ++ b) (n + i) ≡ byte_at b i
byte_at_past [] b i h = ap (byte_at b) (omega arith)
byte_at_past (x ∷ a) b i {n} h =
    let behind : n + i ≡ suc (length a + i) = omega arith in
    ap (byte_at (x ∷ (a ++ b))) behind ∙ byte_at_past a b i refl

drop_front : (a b : Text) {n : ℕ} → length a ≡ n → drop n (a ++ b) ≡ b
drop_front a b h = rw (← h) (drop-length a b)

take_front : (a b : Text) {n : ℕ} → length a ≡ n → take n (a ++ b) ≡ a
take_front a b h = rw (← h) (take-length a b)

-- The two families differ in the width of their addresses alone.
port_at :
    (o d rest : Text) (port : ℕ) {n : ℕ}
    → length o ≡ n
    → length d ≡ n
    → be16
        (byte_at (o ++ (d ++ put16 port rest)) (n + (n + 0)))
        (byte_at (o ++ (d ++ put16 port rest)) (n + (n + 1)))
      ≡ port
port_at o d rest port {n} h k =
    rw
      (
        byte_at_past o (d ++ put16 port rest) (n + 0) h,
        byte_at_past o (d ++ put16 port rest) (n + 1) h,
        byte_at_past d (put16 port rest) 0 k,
        byte_at_past d (put16 port rest) 1 k,
      )
      (be16_put port)

length_block :
    (o d rest : Text) (p q : ℕ) {n : ℕ}
    → length o ≡ n
    → length d ≡ n
    → n + n + 4 ≤ length (o ++ (d ++ put16 p (put16 q rest)))
length_block o d rest p q h k =
    omega (
      arith,
      length-append o (d ++ put16 p (put16 q rest)),
      length-append d (put16 p (put16 q rest)),
    )

pub v2_address-block :
    (fallback : SocketAddr) (ip : IpAddr) (port : ℕ) (dst : SocketAddr) (tlvs : Text)
    → length (octets ip) ≡ width ip
    → length (octets dst.ip) ≡ width ip
    → v2_address fallback 1 (family ip) (put_block (record { ip = ip; port = port }) dst tlvs)
      ≡ ok (record { ip = ip; port = port })
unfolding v2_address v2_v4 v2_v6
v2_address-block fallback (v4 o) port dst tlvs h k =
    let long : ltb (length (put_block (record { ip = v4 o; port = port }) dst tlvs)) 12 ≡ false =
      ground (arith, length_block o (octets dst.ip) tlvs port dst.port h k) in
    rw (
      long,
      take_front o (octets dst.ip ++ put16 port (put16 dst.port tlvs)) h,
      port_at o (octets dst.ip) (put16 dst.port tlvs) port h k,
    )
v2_address-block fallback (v6 o) port dst tlvs h k =
    let long : ltb (length (put_block (record { ip = v6 o; port = port }) dst tlvs)) 36 ≡ false =
      ground (arith, length_block o (octets dst.ip) tlvs port dst.port h k) in
    rw (
      long,
      take_front o (octets dst.ip ++ put16 port (put16 dst.port tlvs)) h,
      port_at o (octets dst.ip) (put16 dst.port tlvs) port h k,
    )

decode_address-header :
    (fallback : SocketAddr) (ver_cmd fam_proto : ℕ) (front block payload : Text)
    → length front ≡ 16
    → decode_address fallback ver_cmd fam_proto (length block) (front ++ (block ++ payload))
      ≡ (v2_address fallback (ver_cmd % 16) fam_proto block >>= λ addr. ok (addr, payload))
unfolding decode_address
decode_address-header fallback ver_cmd fam_proto front block payload h =
    let enough : leb (16 + length block) (length (front ++ (block ++ payload))) ≡ true =
      ground (arith, length-append front (block ++ payload), length-append block payload) in
    let all_read : drop (16 + length block) (front ++ (block ++ payload)) ≡ payload =
      rw (← append_assoc front block payload)
        (drop_front (front ++ block) payload (omega (arith, length-append front block))) in
    rw (enough, all_read, drop_front front (block ++ payload) h, take-length block payload)

-- A header around any address block is read as the command, family and block that it was written
-- with, and what stands behind it is left.
pub decode_v2-header :
    (fallback : SocketAddr) (command fam_proto : ℕ) (block payload : Text)
    → command < 16
    → length block < 65536
    → decode_v2 fallback (put_header command fam_proto block ++ payload)
      ≡ (v2_address fallback command fam_proto block >>= λ addr. ok (addr, payload))
unfolding decode_v2
decode_v2-header fallback command fam_proto block payload h k =
    let version : (0x20 + command) / 16 ≡ 2 = omega arith in
    let verb : (0x20 + command) % 16 ≡ command = omega arith in
    let front : Text = proxy_v2_magic ++ ((0x20 + command) ∷ fam_proto ∷ put16 (length block) []) in
    let whole : leb 16 (length (put_header command fam_proto block ++ payload)) ≡ true =
      ground arith in
    rw (whole, version, be16_put (length block))
      (decode_address-header fallback (0x20 + command) fam_proto front block payload refl ∙ rw verb)
