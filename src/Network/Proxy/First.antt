-- ===== src/Network/Proxy/First.antt =====
-- parse_proxy_protocol: the one read that decides between the versions.
use vine.Base.{
  ℕ, ◌≤◌, ◌<◌, true, false, leb, ◌∷◌, ◌++◌, Text, text_eq, text_eq_refl, length, take, take-append,
  ◌≡◌, sym, ◌∙◌, ap, arith,
}
use vine.Network.Stream.{
  Stream, Read, got, failed, read, pending, IsWhole, Reads, at_end, some_bytes, read-Reads,
}
use vine.Network.Proxy.{
  Parsers, ok, err, ◌>>=◌, unknown, SocketAddr, proxy_v2_magic, parse_proxy_v2, dispatch,
  first_read, parse_proxy_protocol,
}
use vine.Network.Proxy.Bytes.{unread, decode_v2, parse_proxy_v2-decodes}
use vine.Network.Proxy.RoundTrip.{
  octets, width, family, put_block, encode, decode_v2-header, v2_address-block,
}

abbrev read_size : Read → ℕ
read_size failed = 0
read_size (got bs s) = length bs

dispatch_v2 :
    (std : Parsers) (fallback : SocketAddr) (initial rest tail : Text) (s : Stream)
    → 12 ≤ length initial
    → initial ++ rest ≡ proxy_v2_magic ++ tail
    → dispatch std fallback initial s ≡ parse_proxy_v2 fallback initial s
unfolding dispatch
dispatch_v2 std fallback initial rest tail s h e =
    let magic : take 12 initial ≡ proxy_v2_magic =
      sym (take-append initial rest 12 h) ∙ ap (take 12) e in
    let long : leb 12 (length initial) ≡ true = ground arith in
    rw (long, magic, text_eq_refl proxy_v2_magic)

dispatch_short :
    (std : Parsers) (fallback : SocketAddr) (b : ℕ) (bs rest tail : Text) (s : Stream)
    → length (b ∷ bs) < 12
    → (b ∷ bs) ++ rest ≡ proxy_v2_magic ++ tail
    → dispatch std fallback (b ∷ bs) s ≡ err unknown
unfolding dispatch text_eq
dispatch_short std fallback b bs rest tail s h e =
    let short : leb 12 (length (b ∷ bs)) ≡ false = ground arith in
    let first : b ≡ 0x0D = cc in rw (short, first) (ground arith)

-- Any header that starts with the magic is left to the v2 parser when the first read reaches past
-- it.
first_read_v2 :
    (std : Parsers) (fallback : SocketAddr) (tail : Text) (s : Stream) {r : Read}
    → 12 ≤ read_size r
    → pending s ≡ proxy_v2_magic ++ tail
    → Reads 512 s r
    → unread (first_read std fallback r) ≡ decode_v2 fallback (proxy_v2_magic ++ tail)
unfolding first_read
first_read_v2 std fallback tail s h p (at_end e) = absurd (omega arith)
first_read_v2 std fallback tail s h p (some_bytes {b} {bs} {rest} l e w) =
    ap unread (dispatch_v2 std fallback (b ∷ bs) (pending rest) tail rest h (sym e ∙ p))
    ∙ parse_proxy_v2-decodes fallback (b ∷ bs) rest w
    ∙ ap (decode_v2 fallback) (sym e ∙ p)

first_read_short :
    (std : Parsers) (fallback : SocketAddr) (tail : Text) (s : Stream) {r : Read}
    → 0 < read_size r
    → read_size r < 12
    → pending s ≡ proxy_v2_magic ++ tail
    → Reads 512 s r
    → first_read std fallback r ≡ err unknown
unfolding first_read
first_read_short std fallback tail s h k p (at_end e) = absurd (omega arith)
first_read_short std fallback tail s h k p (some_bytes {b} {bs} {rest} l e w) =
    dispatch_short std fallback b bs (pending rest) tail rest k (sym e ∙ p)

-- A client address that is written in a v2 header, TCP over IPv4 or IPv6 with any additional
-- fields, is the address that `parse_proxy_protocol` returns, and what is left to read is exactly
-- the bytes behind the header: for every way the stream cuts the bytes into chunks whose first read
-- gives at least twelve bytes, where the stream does not fail, the addresses have the width of the
-- client's family, and the address block has fewer than 65,536 bytes.
pub parse_proxy_protocol-encode :
    (std : Parsers) (fallback src dst : SocketAddr) (tlvs payload : Text) (s : Stream)
    → IsWhole s
    → pending s ≡ encode src dst tlvs ++ payload
    → length (octets src.ip) ≡ width src.ip
    → length (octets dst.ip) ≡ width src.ip
    → length (put_block src dst tlvs) < 65536
    → 12 ≤ read_size (read 512 s)
    → unread (parse_proxy_protocol std fallback s) ≡ ok (src, payload)
unfolding parse_proxy_protocol
parse_proxy_protocol-encode std fallback src dst tlvs payload s w p h k small first =
    first_read_v2 std fallback _ s first p (read-Reads 512 s (omega arith) w)
    ∙ decode_v2-header fallback 1 (family src.ip) (put_block src dst tlvs) payload (omega arith)
        small
    ∙ ap (λ r. r >>= λ addr. ok (addr, payload))
        (v2_address-block fallback src.ip src.port dst tlvs h k)

-- A complete v2 header is refused as unknown if the first read gives between one and eleven of its
-- bytes, whatever later reads would give, for a stream that does not fail.
pub parse_proxy_protocol-short :
    (std : Parsers) (fallback src dst : SocketAddr) (tlvs payload : Text) (s : Stream)
    → IsWhole s
    → pending s ≡ encode src dst tlvs ++ payload
    → 0 < read_size (read 512 s)
    → read_size (read 512 s) < 12
    → parse_proxy_protocol std fallback s ≡ err unknown
unfolding parse_proxy_protocol
parse_proxy_protocol-short std fallback src dst tlvs payload s w p h k =
    first_read_short std fallback _ s h k p (read-Reads 512 s (omega arith) w)
