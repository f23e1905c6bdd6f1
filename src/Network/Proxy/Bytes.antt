-- ===== src/Network/Proxy/Bytes.antt =====
-- `parse_proxy_v2` and its specification, a function of the bytes alone.
use vine.Base.{
  ℕ, zero, suc, ◌+◌, ◌-◌, ◌/◌, ◌%◌, ◌≤◌, ◌<◌, true, leb, ◌==◌, [], ◌∷◌, ◌++◌, Text, length, take,
  drop, length-append, length-drop, take-append, drop-append, ◌≡◌, refl, ◌∙◌, arith, Bool-cases,
  inl, inr,
}
use vine.Network.Stream.{Stream, pending, IsWhole}
use vine.Network.Proxy.{
  Result, ok, err, ◌>>=◌, ensure, ◌>>◌, SocketAddr, ProxyHeaderResult, be16, byte_at, v2_address,
  v2_finish, v2_body, parse_proxy_v2, v2_eof_header, v2_eof_body, v2_version,
}
use vine.Network.Proxy.Fill.{Fills, full, short, fill-Fills}

-- The address block, and the bytes behind it, in a header with these fields.
unfoldable pub decode_address : SocketAddr → ℕ → ℕ → ℕ → Text → Result (SocketAddr × Text)
decode_address fallback ver_cmd fam_proto addr_len bytes = do
  ensure (leb (16 + addr_len) (length bytes)) v2_eof_body
  addr ← v2_address fallback (ver_cmd % 16) fam_proto (take addr_len (drop 16 bytes))
  ok (addr, drop (16 + addr_len) bytes)

-- The address and the bytes behind the header.
unfoldable pub decode_v2 : SocketAddr → Text → Result (SocketAddr × Text)
decode_v2 fallback bytes = do
  ensure (leb 16 (length bytes)) v2_eof_header
  ensure (byte_at bytes 12 / 16 == 2) v2_version
  decode_address fallback (byte_at bytes 12) (byte_at bytes 13)
      (be16 (byte_at bytes 14) (byte_at bytes 15)) bytes

-- What the caller will read behind the header: the bytes left over, and then the stream.
abbrev pub unread : Result ProxyHeaderResult → Result (SocketAddr × Text)
unread (ok r) = ok (r.client_addr, r.leftover_bytes ++ pending r.stream)
unread (err e) = err e

byte_at-append : (a b : Text) (i : ℕ) → i < length a → byte_at (a ++ b) i ≡ byte_at a i
byte_at-append [] b i h = absurd (omega arith)
byte_at-append (x ∷ a) b zero h = refl
byte_at-append (x ∷ a) b (suc i) h = byte_at-append a b i (omega arith)

drop-append-take :
    (n : ℕ) (a b : Text) → 16 + n ≤ length a → take n (drop 16 (a ++ b)) ≡ take n (drop 16 a)
drop-append-take n a b h =
    rw (drop-append a b 16 (omega arith))
      (take-append (drop 16 a) b n (omega (arith, length-drop 16 a)))

unread-bind :
    (m : Result SocketAddr) (rest : Text) (s : Stream)
    → unread (m >>= λ addr. ok (record { client_addr = addr; leftover_bytes = rest; stream = s }))
      ≡ (m >>= λ addr. ok (addr, rest ++ pending s))
unread-bind (ok a) rest s = refl
unread-bind (err e) rest s = refl

v2_finish-decodes :
    (fallback : SocketAddr) (header : Text) (addr_len : ℕ) (whole : Text) (s : Stream)
    → 16 + addr_len ≤ length whole
    → unread (v2_finish fallback header addr_len whole s)
      ≡ decode_address fallback
          (byte_at header 12)
          (byte_at header 13)
          addr_len
          (whole ++ pending s)
unfolding v2_finish decode_address
v2_finish-decodes fallback header addr_len whole s h =
    let enough : leb (16 + addr_len) (length (whole ++ pending s)) ≡ true =
      ground (arith, length-append whole (pending s)) in
    unread-bind _ (drop (16 + addr_len) whole) s
    ∙ rw (
      enough,
      drop-append-take addr_len whole (pending s) h,
      drop-append whole (pending s) (16 + addr_len) h,
    )

Fills-decodes :
    (fallback : SocketAddr) (header : Text) (addr_len : ℕ) (s : Stream) (r : Result (Text × Stream))
    → Fills (16 + addr_len) v2_eof_body header s r
    → unread (r >>= λ (whole, s'). v2_finish fallback header addr_len whole s')
      ≡ decode_address fallback
          (byte_at header 12)
          (byte_at header 13)
          addr_len
          (header ++ pending s)
Fills-decodes fallback header addr_len s r (full {h = whole} {s' = s'} e l w) =
    v2_finish-decodes fallback header addr_len whole s' l ∙ rw e
Fills-decodes fallback header addr_len s r (short l) = unfold decode_address in ground arith

v2_body-decodes :
    (fallback : SocketAddr) (header : Text) (s : Stream)
    → 16 ≤ length header
    → IsWhole s
    → unread (v2_body fallback header s) ≡ decode_v2 fallback (header ++ pending s)
unfolding v2_body decode_v2
v2_body-decodes fallback header s h w =
    let enough : leb 16 (length (header ++ pending s)) ≡ true =
      ground (arith, length-append header (pending s)) in
    let addr_len : ℕ = be16 (byte_at header 14) (byte_at header 15) in
    rw
      (
        enough,
        byte_at-append header (pending s) 12 (omega arith),
        byte_at-append header (pending s) 13 (omega arith),
        byte_at-append header (pending s) 14 (omega arith),
        byte_at-append header (pending s) 15 (omega arith),
      )
      (elim (Bool-cases (byte_at header 12 / 16 == 2)) [
        | inl e ↦ rw e (
            Fills-decodes fallback header addr_len s _ (
              fill-Fills (suc (16 + addr_len - length header)) (16 + addr_len) 512 v2_eof_body
                header s (omega arith) (omega arith) w))
        | inr e ↦ rw e
      ])

header-decodes :
    (fallback : SocketAddr) (initial : Text) (s : Stream) (r : Result (Text × Stream))
    → Fills 16 v2_eof_header initial s r
    → unread (r >>= λ (header, s'). v2_body fallback header s')
      ≡ decode_v2 fallback (initial ++ pending s)
header-decodes fallback initial s r (full {h = header} {s' = s'} e l w) =
    v2_body-decodes fallback header s' l w ∙ rw e
header-decodes fallback initial s r (short l) = unfold decode_v2 in ground arith

-- For every stream that does not fail, the v2 parser returns the address or the error that the
-- specification reads off the bytes alone, and leaves every byte behind the header to read: how the
-- stream cuts the bytes into chunks does not matter.
pub parse_proxy_v2-decodes :
    (fallback : SocketAddr) (initial : Text) (s : Stream)
    → IsWhole s
    → unread (parse_proxy_v2 fallback initial s) ≡ decode_v2 fallback (initial ++ pending s)
unfolding parse_proxy_v2
parse_proxy_v2-decodes fallback initial s w = header-decodes fallback initial s _ (
    fill-Fills (suc (16 - length initial)) 16 16 v2_eof_header initial s (omega arith) (omega arith)
      w)
