-- ===== src/Network/Tests.antt =====
-- The PROXY protocol on concrete streams.
use vine.Base.{suc, drop, true, [], ◌∷◌, ◌++◌, some, Text, codes, length, v4, ◌≡◌, refl, arith}
use vine.Network.Stream.{Stream, chunk, pending, IsWhole, ends, more, read}
use vine.Network.Proxy.{
  Parsers, ok, err, unknown, SocketAddr, parse_proxy_v1, parse_proxy_v2, parse_proxy_protocol,
}
use vine.Network.Proxy.Bytes.{unread, decode_v2, parse_proxy_v2-decodes}
use vine.Network.Proxy.RoundTrip.{encode}
use vine.Network.Proxy.Version1.{Heeds, parse_proxy_v1-Heeds}
use vine.Network.Proxy.First.{parse_proxy_protocol-encode, parse_proxy_protocol-short}
use vine.Network.Prefixed.{new, read_to_end}
use vine.Network.Prefixed.Order.{read_to_end-new}

-- Parsers that take every line for text, and every address for the same one.
abbrev lenient : Parsers
lenient = record { is_utf8 = λ t. true; parse_ip = λ t. some (v4 (192 ∷ 0 ∷ 2 ∷ 1 ∷ [])) }

abbrev client : SocketAddr
client = record { ip = v4 (192 ∷ 168 ∷ 1 ∷ 100 ∷ []); port = 12345 }

abbrev balancer : SocketAddr
balancer = record { ip = v4 (10 ∷ 0 ∷ 0 ∷ 1 ∷ []); port = 25565 }

abbrev header : Text
header = encode client balancer []

-- The header in one chunk, and the first packet behind it.
abbrev together : Stream
together = chunk header ∷ chunk (codes "HELLO") ∷ []

together-IsWhole : IsWhole together
together-IsWhole = more (more ends)

parse_proxy_protocol-encode_example :
    unread (parse_proxy_protocol lenient balancer together) ≡ ok (client, codes "HELLO")
unfolding pending read
parse_proxy_protocol-encode_example =
    parse_proxy_protocol-encode lenient balancer client balancer [] (codes "HELLO") together
      together-IsWhole refl refl refl (omega arith) (omega arith)

-- The same bytes, of which the first arrives alone.
abbrev split : Stream
split = chunk (0x0D ∷ []) ∷ chunk (drop 1 header) ∷ chunk (codes "HELLO") ∷ []

parse_proxy_protocol-short_example : parse_proxy_protocol lenient balancer split ≡ err unknown
unfolding pending read
parse_proxy_protocol-short_example =
    parse_proxy_protocol-short lenient balancer client balancer [] (codes "HELLO") split
      (more (more (more ends))) refl (omega arith) (omega arith)

parse_proxy_v2-decodes_example :
    unread (parse_proxy_v2 balancer (0x0D ∷ []) (chunk (drop 1 header) ∷ []))
    ≡ decode_v2 balancer ((0x0D ∷ []) ++ pending (chunk (drop 1 header) ∷ []))
parse_proxy_v2-decodes_example =
    parse_proxy_v2-decodes balancer (0x0D ∷ []) (chunk (drop 1 header) ∷ []) (more ends)

abbrev line : Text
line = codes "TCP4 192.0.2.1 10.0.0.1 56324 443\r\nHELLO"

parse_proxy_v1-Heeds_example :
    Heeds lenient balancer
      (codes "PROXY " ++ pending (chunk line ∷ []))
      (parse_proxy_v1 lenient balancer (codes "PROXY ") (chunk line ∷ []))
parse_proxy_v1-Heeds_example =
    parse_proxy_v1-Heeds lenient balancer (codes "PROXY ") (chunk line ∷ []) (more ends)

read_to_end-new_example :
    read_to_end
      (suc (length (codes "PROXY " ++ pending (chunk line ∷ []))))
      4
      (new (chunk line ∷ []) (codes "PROXY "))
    ≡ some (codes "PROXY " ++ pending (chunk line ∷ []))
read_to_end-new_example =
    read_to_end-new 4 (chunk line ∷ []) (codes "PROXY ") (omega arith) (more ends)
