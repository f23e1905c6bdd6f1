-- ===== src/Network/Proxy/Lines.antt =====
-- `parse_proxy_v1` and its specification, a function of the bytes alone.
use vine.Base.{
  Option, ℕ, zero, suc, ◌+◌, ◌-◌, ◌≤◌, ◌<◌, Bool, true, false, ◌&&◌, leb, ◌==◌, [], ◌∷◌, ◌++◌, none,
  some, Text, length, take, drop, length-append, take-append, drop-append, append_assoc, append-nil,
  ◌≡◌, ◌⊎◌, refl, sym, ◌∙◌, ap, arith, Bool-cases, Option-cases, inl, inr,
}
use vine.Network.Stream.{Stream, Read, pending, IsWhole, Reads, at_end, some_bytes, read-Reads}
use vine.Network.Proxy.{
  Parsers, Result, ok, err, ◌>>=◌, ensure, ◌>>◌, SocketAddr, ProxyHeaderResult, extend, find_crlf,
  read_line, v1_decode, v1_finish, v1_address, split_on, parse_proxy_v1, v1_eof, v1_too_long,
  v1_utf8,
}
use vine.Network.Proxy.Bytes.{unread}

unfoldable pub decode_line : Parsers → SocketAddr → Text → Option ℕ → Result (SocketAddr × Text)
decode_line std fallback bytes none = err v1_eof
decode_line std fallback bytes (some pos) = v1_decode std fallback bytes pos

-- The line that ends at the first CRLF, and the bytes behind it.
unfoldable pub decode_v1 : Parsers → SocketAddr → Text → Result (SocketAddr × Text)
decode_v1 std fallback bytes = decode_line std fallback bytes (find_crlf bytes)

decode_v1_found :
    (std : Parsers) (fallback : SocketAddr) (bytes : Text) {o : Option ℕ}
    → find_crlf bytes ≡ o
    → decode_v1 std fallback bytes ≡ decode_line std fallback bytes o
unfolding decode_v1
decode_v1_found std fallback bytes h = ap (decode_line std fallback bytes) h

find_crlf-append : (a b : Text) (p : ℕ) → find_crlf a ≡ some p → find_crlf (a ++ b) ≡ some p
unfolding find_crlf
find_crlf-append [] b p h = cc
find_crlf-append (c ∷ []) b p h = cc
find_crlf-append (c ∷ d ∷ cs) b p h = elim (Bool-cases (c == b'\r' && d == b'\n')) [
  | inl e ↦ rw e (rw e at h)
  | inr e ↦ elim (Option-cases (find_crlf (d ∷ cs))) [
    | inl n ↦ ground arith
    | inr (q, m) ↦ ground (arith, find_crlf-append (d ∷ cs) b q m)
  ]
]

find_crlf_fits : (a : Text) (p : ℕ) → find_crlf a ≡ some p → p + 2 ≤ length a
unfolding find_crlf
find_crlf_fits [] p h = cc
find_crlf_fits (c ∷ []) p h = cc
find_crlf_fits (c ∷ d ∷ cs) p h = elim (Option-cases (find_crlf (d ∷ cs))) [
  | inl n ↦ ground arith
  | inr (q, m) ↦ ground (arith, find_crlf_fits (d ∷ cs) q m)
]

find_crlf-take : (n : ℕ) (a : Text) → find_crlf a ≡ none → find_crlf (take n a) ≡ none
unfolding find_crlf
find_crlf-take zero a h = refl
find_crlf-take (suc n) [] h = refl
find_crlf-take (suc zero) (c ∷ cs) h = refl
find_crlf-take (suc (suc n)) (c ∷ []) h = refl
find_crlf-take (suc (suc n)) (c ∷ d ∷ cs) h = elim (Option-cases (find_crlf (d ∷ cs))) [
  | inl e ↦ ground (arith, find_crlf-take (suc n) (d ∷ cs) e)
  | inr (q, m) ↦ ground arith
]

-- How the loop ends: with a line in the buffer, at the end of the stream, or past the limit with
-- no line in sight.
data Lines (buffer : Text) (s : Stream) : Result (Text × Stream) → Type 0 where
  line :
      {b : Text} {s' : Stream} (p : ℕ)
      → b ++ pending s' ≡ buffer ++ pending s
      → find_crlf b ≡ some p
      → Lines buffer s (ok (b, s'))
  ended : find_crlf (buffer ++ pending s) ≡ none → Lines buffer s (err v1_eof)
  too_long :
      108 ≤ length (buffer ++ pending s)
      → find_crlf (take 108 (buffer ++ pending s)) ≡ none
      → Lines buffer s (err v1_too_long)

Lines-shift :
    (h k : Text) (s t : Stream) {r : Result (Text × Stream)}
    → k ++ pending t ≡ h ++ pending s
    → Lines k t r
    → Lines h s r
Lines-shift h k s t e (line p f l) = line p (f ∙ e) l
Lines-shift h k s t e (ended l) = ended (rw (← e) l)
Lines-shift h k s t e (too_long l f) = too_long (rw (← e) l) (rw (← e) f)

extend-Lines :
    (continue : Text → Stream → Result (Text × Stream)) (buffer : Text) (s : Stream) (r : Read)
    {size : ℕ}
    → Reads size s r
    → find_crlf buffer ≡ none
    → ((b : ℕ) (bs : Text) (rest : Stream)
        → IsWhole rest
        → Lines (buffer ++ b ∷ bs) rest (continue (buffer ++ b ∷ bs) rest))
    → Lines buffer s (extend continue v1_eof buffer r)
unfolding extend
extend-Lines continue buffer s r (at_end e) m ih = ended (rw (e, append-nil buffer) m)
extend-Lines continue buffer s r (some_bytes {b} {bs} {rest} l e w) m ih =
    Lines-shift buffer (buffer ++ b ∷ bs) s rest
      (append_assoc buffer (b ∷ bs) (pending rest) ∙ ap (◌++◌ buffer) (sym e)) (ih b bs rest w)

read_line-Lines :
    (fuel : ℕ) (buffer : Text) (s : Stream)
    → 108 - length buffer < fuel
    → IsWhole s
    → Lines buffer s (read_line fuel buffer s)
unfolding read_line
read_line-Lines zero buffer s f w = absurd (omega arith)
read_line-Lines (suc fuel) buffer s f w = elim (Option-cases (find_crlf buffer)) [
  | inr (p, e) ↦ rw e (line p refl e)
  | inl e ↦ elim (Bool-cases (leb 108 (length buffer))) [
    | inl g ↦
        let long : 108 ≤ length buffer = ground arith in
        rw (e, g)
          (too_long (omega (arith, length-append buffer (pending s)))
            (rw (take-append buffer (pending s) 108 long) (find_crlf-take 108 buffer e)))
    | inr g ↦
        let room : length buffer < 108 = ground arith in
        rw (e, g)
          (extend-Lines (read_line fuel) buffer s _ (read-Reads 1 s (omega arith) w) e
            (λ c cs rest w'.
              read_line-Lines fuel (buffer ++ c ∷ cs) rest
                (omega (arith, length-append buffer (c ∷ cs))) w'))
  ]
]

abbrev with_rest : Text → SocketAddr × Text → Result (SocketAddr × Text)
with_rest rest (addr, left) = ok (addr, left ++ rest)

unread-bind :
    (m : Result (SocketAddr × Text)) (s : Stream)
    → unread (
        m >>= λ (addr, left). ok (record { client_addr = addr; leftover_bytes = left; stream = s }))
      ≡ (m >>= with_rest (pending s))
unread-bind (ok (addr, left)) s = refl
unread-bind (err e) s = refl

-- More bytes behind the line do not change what it means.
v1_decode-append :
    (std : Parsers) (fallback : SocketAddr) (b rest : Text) (p : ℕ)
    → p + 2 ≤ length b
    → (v1_decode std fallback b p >>= with_rest rest) ≡ v1_decode std fallback (b ++ rest) p
unfolding v1_decode
v1_decode-append std fallback b rest p h =
    rw (take-append b rest p (omega arith), drop-append b rest (p + 2) h)
      (go (std.is_utf8 (take p b)) (v1_address std fallback (split_on b' ' (take p b))))
  where
    go :
        (valid : Bool) (m : Result SocketAddr)
        → (ensure valid v1_utf8 >> (m >>= λ addr. ok (addr, drop (p + 2) b)) >>= with_rest rest)
          ≡ (ensure valid v1_utf8 >> (m >>= λ addr. ok (addr, drop (p + 2) b ++ rest)))
    go true (ok a) = refl
    go true (err e) = refl
    go false m = refl

-- The parser agrees with `decode_v1`, but for the limit on the bytes that it reads one by one.
abbrev pub Agrees : Parsers → SocketAddr → Text → Result ProxyHeaderResult → Type 0
Agrees std fallback bytes r =
    (unread r ≡ decode_v1 std fallback bytes)
    ⊎ ((r ≡ err v1_too_long) × (108 ≤ length bytes) × (find_crlf (take 108 bytes) ≡ none))

lines-Agrees :
    (std : Parsers) (fallback : SocketAddr) (initial : Text) (s : Stream)
    (r : Result (Text × Stream))
    → Lines initial s r
    → Agrees std fallback
        (initial ++ pending s)
        (r >>= λ (buffer, s'). v1_finish std fallback buffer s' (find_crlf buffer))
unfolding v1_finish decode_line
lines-Agrees std fallback initial s r (line {b} {s'} p e f) = inl (
    rw f (unread-bind (v1_decode std fallback b p) s')
    ∙ v1_decode-append std fallback b (pending s') p (find_crlf_fits b p f)
    ∙ sym (decode_v1_found std fallback (b ++ pending s') (find_crlf-append b (pending s') p f))
    ∙ ap (decode_v1 std fallback) e)
lines-Agrees std fallback initial s r (ended f) =
    inl (sym (decode_v1_found std fallback (initial ++ pending s) f))
lines-Agrees std fallback initial s r (too_long l f) = inr (refl, l, f)

-- For every stream that does not fail, the v1 parser returns what the line up to the first CRLF
-- says, or its error, and leaves every byte behind the line to read; or it refuses the header as
-- too long, which happens only if there are at least 108 bytes and no CRLF in the first 108.
pub parse_proxy_v1-Agrees :
    (std : Parsers) (fallback : SocketAddr) (initial : Text) (s : Stream)
    → IsWhole s
    → Agrees std fallback (initial ++ pending s) (parse_proxy_v1 std fallback initial s)
unfolding parse_proxy_v1
parse_proxy_v1-Agrees std fallback initial s w =
    lines-Agrees std fallback initial s _
      (read_line-Lines (suc (108 - length initial)) initial s (omega arith) w)
