-- ===== src/Network/Proxy.antt =====
-- src/network/proxy_protocol.rs: the header that a load balancer sends in front of the client's
-- bytes. `Parsers` stands for the two functions of the standard library that a v1 line needs.
pub mod Fill
pub mod Bytes
pub mod RoundTrip
pub mod Lines
pub mod Decimal
pub mod Line
pub mod Version1
pub mod First
pub mod Split
use mathlib.Core.Option
use vine.Base.{
  ℕ, zero, suc, ◌+◌, ◌-◌, ◌*◌, ◌/◌, ◌%◌, min, Bool, true, false, ◌&&◌, ◌||◌, not, leb, ltb, ◌==◌,
  if◌then◌else◌, List, [], ◌∷◌, ◌++◌, Option, none, some, Text, codes, text_eq, length, take, drop,
  get_or, IpAddr, v4, v6, parse_u16, parse_unsigned,
}
use vine.Network.Stream.{Stream, Read, got, failed, read}

pub data HeaderError : Type 0 where
  read_failed closed unknown : HeaderError
  v1_too_long v1_eof v1_utf8 v1_prefix v1_incomplete v1_ip v1_port v1_protocol : HeaderError
  v2_eof_header v2_version v2_eof_body v2_command v2_short_v4 v2_short_v6 : HeaderError
  out_of_fuel : HeaderError

-- `Result<_, io::Error>`
pub data Result {ℓ} (A : Type ℓ) : Type ℓ where
  err : HeaderError → Result A
  ok : A → Result A

-- `?`
infixl 5 ◌>>=◌
abbrev pub ◌>>=◌ {ℓ κ} : {A : Type ℓ} {B : Type κ} → Result A → (A → Result B) → Result B
err reason >>= next = err reason
ok value >>= next = next value

abbrev pub or_fail {ℓ} : {A : Type ℓ} → Option A → HeaderError → Result A
or_fail (some value) reason = ok value
or_fail none reason = err reason

abbrev pub ensure : Bool → HeaderError → Result (Unit {0})
ensure holds reason = if holds then ok tt else err reason

infixl 5 ◌>>◌
abbrev pub ◌>>◌ {ℓ} : {B : Type ℓ} → Result (Unit {0}) → Result B → Result B
first >> second = first >>= λ _. second

pub record SocketAddr : Type 0 where
  pub ip : IpAddr
  pub port : ℕ

-- With the stream behind the header, which the caller goes on reading.
pub record ProxyHeaderResult : Type 0 where
  pub client_addr : SocketAddr
  pub leftover_bytes : Text
  pub stream : Stream

abbrev pub proxy_v2_magic : Text
proxy_v2_magic =
    0x0D ∷ 0x0A ∷ 0x0D ∷ 0x0A ∷ 0x00 ∷ 0x0D ∷ 0x0A ∷ 0x51 ∷ 0x55 ∷ 0x49 ∷ 0x54 ∷ 0x0A ∷ []

-- What a loop does with what it read: nothing is the end of the stream.
extend :
    (Text → Stream → Result (Text × Stream)) → HeaderError → Text → Read → Result (Text × Stream)
extend continue eof header failed = err read_failed
extend continue eof header (got [] s) = err eof
extend continue eof header (got (b ∷ bs) s) = continue (header ++ b ∷ bs) s

-- `while header.len() < target`: reads what is missing, `buffer` bytes at most at a time.
pub fill : ℕ → ℕ → ℕ → HeaderError → Text → Stream → Result (Text × Stream)
unfolding extend
fill zero target buffer eof header s = err out_of_fuel
fill (suc fuel) target buffer eof header s =
    let more =
      extend (fill fuel target buffer eof) eof header
        (read (min (target - length header) buffer) s) in
    if leb target (length header) then ok (header, s) else more

-- One round for each missing byte, and one to leave the loop.
abbrev pub fill_to : ℕ → ℕ → HeaderError → Text → Stream → Result (Text × Stream)
fill_to target buffer eof header = fill (suc (target - length header)) target buffer eof header

-- `u16::from_be_bytes`
abbrev pub be16 : ℕ → ℕ → ℕ
be16 hi lo = hi * 256 + lo

abbrev pub byte_at : Text → ℕ → ℕ
byte_at bs i = get_or bs i 0

v2_v4 : Text → Result SocketAddr
v2_v4 body =
    if ltb (length body) 12
    then err v2_short_v4
    else ok (record { ip = v4 (take 4 body); port = be16 (byte_at body 8) (byte_at body 9) })

v2_v6 : Text → Result SocketAddr
v2_v6 body =
    if ltb (length body) 36
    then err v2_short_v6
    else ok (record { ip = v6 (take 16 body); port = be16 (byte_at body 32) (byte_at body 33) })

-- The address that a header with this command, family and address block stands for.
pub v2_address : SocketAddr → ℕ → ℕ → Text → Result SocketAddr
v2_address fallback command fam_proto body =
    if command == 0
    then ok fallback
    else if not (command == 1)
    then err v2_command
    else if fam_proto / 16 == 1 && fam_proto % 16 == 1
    then v2_v4 body
    else if fam_proto / 16 == 2 && fam_proto % 16 == 1
    then v2_v6 body
    else ok fallback

-- Behind the second loop.
v2_finish : SocketAddr → Text → ℕ → Text → Stream → Result ProxyHeaderResult
v2_finish fallback header addr_len whole s = do
  addr ←
      v2_address fallback (byte_at header 12 % 16) (byte_at header 13)
        (take addr_len (drop 16 whole))
  ok (record { client_addr = addr; leftover_bytes = drop (16 + addr_len) whole; stream = s })

-- Behind the first loop.
v2_body : SocketAddr → Text → Stream → Result ProxyHeaderResult
v2_body fallback header s =
    let addr_len = be16 (byte_at header 14) (byte_at header 15) in
    if not (byte_at header 12 / 16 == 2)
    then err v2_version
    else fill_to (16 + addr_len) 512 v2_eof_body header s >>= λ (whole, s').
        v2_finish fallback header addr_len whole s'

pub parse_proxy_v2 : SocketAddr → Text → Stream → Result ProxyHeaderResult
parse_proxy_v2 fallback initial s = do
  (header, s') ← fill_to 16 16 v2_eof_header initial s
  v2_body fallback header s'

abbrev pub is_some {ℓ} : {A : Type ℓ} → Option A → Bool
is_some none = false
is_some (some _) = true

-- `buffer.windows(2).position(|w| w == b"\r\n")`
pub find_crlf : Text → Option ℕ
find_crlf [] = none
find_crlf (c ∷ []) = none
find_crlf (c ∷ d ∷ cs) =
    if c == b'\r' && d == b'\n' then some 0 else Option.map suc (find_crlf (d ∷ cs))

-- The loop that reads a byte at a time until the line has its end.
pub read_line : ℕ → Text → Stream → Result (Text × Stream)
read_line zero buffer s = err out_of_fuel
read_line (suc fuel) buffer s =
    let more = extend (read_line fuel) v1_eof buffer (read 1 s) in
    if is_some (find_crlf buffer)
    then ok (buffer, s)
    else if leb 108 (length buffer)
    then err v1_too_long
    else more

-- A character in front of the first part.
cons_head : ℕ → List Text → List Text
cons_head c [] = (c ∷ []) ∷ []
cons_head c (p ∷ ps) = (c ∷ p) ∷ ps

-- `str::split`
pub split_on : ℕ → Text → List Text
unfolding cons_head
split_on sep [] = [] ∷ []
split_on sep (c ∷ cs) = if c == sep then [] ∷ split_on sep cs else cons_head c (split_on sep cs)

-- `from_utf8` and the parser of `IpAddr`.
pub record Parsers : Type 0 where
  pub is_utf8 : Text → Bool
  pub parse_ip : Text → Option IpAddr

abbrev part : List Text → ℕ → Text
part parts i = get_or parts i []

-- The `match` on the protocol.
v1_tcp : Parsers → List Text → Result SocketAddr
v1_tcp std parts = do
  ip ← or_fail (std.parse_ip (part parts 2)) v1_ip
  port ← or_fail (parse_u16 (part parts 4)) v1_port
  ok (record { ip = ip; port = port })

pub v1_address : Parsers → SocketAddr → List Text → Result SocketAddr
unfolding v1_tcp
v1_address std fallback parts =
    if not (text_eq (part parts 0) (codes "PROXY"))
    then err v1_prefix
    else if length parts == 2 && text_eq (part parts 1) (codes "UNKNOWN")
    then ok fallback
    else if ltb (length parts) 6
    then err v1_incomplete
    else if text_eq (part parts 1) (codes "TCP4") || text_eq (part parts 1) (codes "TCP6")
    then v1_tcp std parts
    else if text_eq (part parts 1) (codes "UNKNOWN")
    then ok fallback
    else err v1_protocol

-- The line up to `crlf_pos`, and what stands behind its end.
pub v1_decode : Parsers → SocketAddr → Text → ℕ → Result (SocketAddr × Text)
v1_decode std fallback buffer crlf_pos = do
  ensure (std.is_utf8 (take crlf_pos buffer)) v1_utf8
  addr ← v1_address std fallback (split_on b' ' (take crlf_pos buffer))
  ok (addr, drop (crlf_pos + 2) buffer)

v1_finish : Parsers → SocketAddr → Text → Stream → Option ℕ → Result ProxyHeaderResult
v1_finish std fallback buffer s none = err out_of_fuel
v1_finish std fallback buffer s (some crlf_pos) = do
  (addr, leftover) ← v1_decode std fallback buffer crlf_pos
  ok (record { client_addr = addr; leftover_bytes = leftover; stream = s })

pub parse_proxy_v1 : Parsers → SocketAddr → Text → Stream → Result ProxyHeaderResult
parse_proxy_v1 std fallback initial s = do
  (buffer, s') ← read_line (suc (108 - length initial)) initial s
  v1_finish std fallback buffer s' (find_crlf buffer)

-- On the bytes of the first read.
dispatch : Parsers → SocketAddr → Text → Stream → Result ProxyHeaderResult
dispatch std fallback initial s =
    if leb 12 (length initial) && text_eq (take 12 initial) proxy_v2_magic
    then parse_proxy_v2 fallback initial s
    else if leb 6 (length initial) && text_eq (take 6 initial) (codes "PROXY ")
    then parse_proxy_v1 std fallback initial s
    else err unknown

first_read : Parsers → SocketAddr → Read → Result ProxyHeaderResult
first_read std fallback failed = err read_failed
first_read std fallback (got [] s) = err closed
first_read std fallback (got (b ∷ bs) s) = dispatch std fallback (b ∷ bs) s

pub parse_proxy_protocol : Parsers → SocketAddr → Stream → Result ProxyHeaderResult
parse_proxy_protocol std fallback s = first_read std fallback (read 512 s)
