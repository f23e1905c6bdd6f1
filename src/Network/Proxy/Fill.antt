-- ===== src/Network/Proxy/Fill.antt =====
-- The two loops of `parse_proxy_v2` that read up to a length: their rounds and their bytes.
use vine.Base.{
  ℕ, zero, suc, ◌-◌, ◌≤◌, ◌<◌, min, leb, ◌∷◌, ◌++◌, Text, length, length-append, append_assoc,
  append-nil, ◌≡◌, refl, sym, ◌∙◌, ap, arith, Bool-cases, inl, inr,
}
use vine.Network.Stream.{Stream, Read, pending, IsWhole, Reads, at_end, some_bytes, read-Reads}
use vine.Network.Proxy.{HeaderError, Result, ok, err, extend, fill}

-- Either enough bytes are there, and the bytes read and those still to come are the same as
-- before; or the stream ends too early, and the loop fails.
pub data Fills (target : ℕ) (eof : HeaderError) (header : Text) (s : Stream)
    : Result (Text × Stream) → Type 0 where
  full :
      {h : Text} {s' : Stream}
      → h ++ pending s' ≡ header ++ pending s
      → target ≤ length h
      → IsWhole s'
      → Fills target eof header s (ok (h, s'))
  short : length (header ++ pending s) < target → Fills target eof header s (err eof)

Fills-shift :
    (target : ℕ) (eof : HeaderError) (h k : Text) (s t : Stream) {r : Result (Text × Stream)}
    → k ++ pending t ≡ h ++ pending s
    → Fills target eof k t r
    → Fills target eof h s r
Fills-shift target eof h k s t e (full f l w) = full (f ∙ e) l w
Fills-shift target eof h k s t e (short l) = short (rw (← e) l)

extend-Fills :
    (continue : Text → Stream → Result (Text × Stream)) (target : ℕ) (eof : HeaderError)
    (header : Text) (s : Stream) (r : Read) {size : ℕ}
    → Reads size s r
    → length header < target
    → ((b : ℕ) (bs : Text) (rest : Stream)
        → IsWhole rest
        → Fills target eof (header ++ b ∷ bs) rest (continue (header ++ b ∷ bs) rest))
    → Fills target eof header s (extend continue eof header r)
unfolding extend
extend-Fills continue target eof header s r (at_end e) m ih = short (rw (e, append-nil header) m)
extend-Fills continue target eof header s r (some_bytes {b} {bs} {rest} l e w) m ih =
    Fills-shift target eof header (header ++ b ∷ bs) s rest
      (append_assoc header (b ∷ bs) (pending rest) ∙ ap (◌++◌ header) (sym e)) (ih b bs rest w)

-- The loop that reads up to a length ends within one round for each missing byte and one more: it
-- returns at least that many bytes and loses none, or the stream has too few and it fails; for a
-- buffer of at least one byte and a stream that does not fail.
pub fill-Fills :
    (fuel target buffer : ℕ) (eof : HeaderError) (header : Text) (s : Stream)
    → target - length header < fuel
    → 0 < buffer
    → IsWhole s
    → Fills target eof header s (fill fuel target buffer eof header s)
unfolding fill
fill-Fills zero target buffer eof header s f b w = absurd (omega arith)
fill-Fills (suc fuel) target buffer eof header s f b w =
    elim (Bool-cases (leb target (length header))) [
      | inl e ↦ rw e (full refl (ground arith) w)
      | inr e ↦
          let missing : length header < target = ground arith in
          rw e (
            extend-Fills (fill fuel target buffer eof) target eof header s _
              (read-Reads (min (target - length header) buffer) s (omega arith) w) missing
              (λ c cs rest w'.
                fill-Fills fuel target buffer eof (header ++ c ∷ cs) rest
                  (omega (arith, length-append header (c ∷ cs))) b w'))
    ]
