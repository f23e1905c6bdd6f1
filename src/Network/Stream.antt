-- ===== src/Network/Stream.antt =====
-- An asynchronous byte source: what its reads will find, in order. A read takes at most what it
-- asks for from the front, and leaves the rest of a chunk for the next read.
use vine.Base.{
  ℕ, suc, zero, ◌≤◌, ◌<◌, true, leb, if◌then◌else◌, List, [], ◌∷◌, ◌++◌, Text, length, take, drop,
  length-take, length-drop, take-append-drop, append_assoc, ◌≡◌, refl, sym, ◌∙◌, ap, arith,
  Bool-cases, inl, inr,
}

pub data Event : Type 0 where
  chunk : Text → Event
  broken : Event

abbrev pub Stream : Type 0
Stream = List Event

-- `Ok(n)` with the bytes, or an error of the source. No bytes mean the end.
pub data Read : Type 0 where
  got : Text → Stream → Read
  failed : Read

unfoldable pub read : ℕ → Stream → Read
read size [] = got [] []
read size (broken ∷ es) = failed
read size (chunk bs ∷ es) =
    if leb (length bs) size then got bs es else got (take size bs) (chunk (drop size bs) ∷ es)

-- The bytes up to the end, which is the first empty chunk, or the first failure.
unfoldable pub pending : Stream → Text
pending [] = []
pending (broken ∷ es) = []
pending (chunk [] ∷ es) = []
pending (chunk (b ∷ bs) ∷ es) = (b ∷ bs) ++ pending es

-- The source does not fail before its end.
pub data IsWhole : Stream → Type 0 where
  ends : IsWhole []
  closed : {es : Stream} → IsWhole (chunk [] ∷ es)
  more : {b : ℕ} {bs : Text} {es : Stream} → IsWhole es → IsWhole (chunk (b ∷ bs) ∷ es)

-- A read of a whole source: the end, or at least one byte off the front.
pub data Reads (size : ℕ) (s : Stream) : Read → Type 0 where
  at_end : {rest : Stream} → pending s ≡ [] → Reads size s (got [] rest)
  some_bytes :
      {b : ℕ} {bs : Text} {rest : Stream}
      → length (b ∷ bs) ≤ size
      → pending s ≡ (b ∷ bs) ++ pending rest
      → IsWhole rest
      → Reads size s (got (b ∷ bs) rest)

leb_zero : (n : ℕ) → leb 0 n ≡ true
leb_zero n = ground arith

pending_chunk :
    (bs : Text) (es : Stream) → 0 < length bs → pending (chunk bs ∷ es) ≡ bs ++ pending es
unfolding pending
pending_chunk [] es h = absurd (omega arith)
pending_chunk (b ∷ bs) es h = refl

IsWhole-chunk : (bs : Text) {es : Stream} → 0 < length bs → IsWhole es → IsWhole (chunk bs ∷ es)
IsWhole-chunk [] h w = absurd (omega arith)
IsWhole-chunk (b ∷ bs) h w = more w

read_part :
    (size b : ℕ) (bs : Text) (es : Stream)
    → IsWhole es
    → size < length (b ∷ bs)
    → 0 < size
    → Reads size (chunk (b ∷ bs) ∷ es) (got (take size (b ∷ bs)) (chunk (drop size (b ∷ bs)) ∷ es))
unfolding pending
read_part zero b bs es w h p = absurd (omega arith)
read_part (suc n) b bs es w h p =
    let some_left : 0 < length (drop n bs) = omega (arith, length-drop n bs) in
    some_bytes (omega (arith, length-take n bs))
      (ap (◌∷◌ b) (
        ap (λ t. t ++ pending es) (sym (take-append-drop n bs))
        ∙ append_assoc (take n bs) (drop n bs) (pending es)
        ∙ ap (◌++◌ (take n bs)) (sym (pending_chunk (drop n bs) es some_left))))
      (IsWhole-chunk (drop n bs) some_left w)

pub read-Reads : (size : ℕ) (s : Stream) → 0 < size → IsWhole s → Reads size s (read size s)
unfolding read pending
read-Reads size [] p w = at_end refl
read-Reads size (broken ∷ es) p w = elim w [ ]
read-Reads size (chunk [] ∷ es) p w = rw (leb_zero size) (at_end refl)
read-Reads size (chunk (b ∷ bs) ∷ es) p (more w) = elim (Bool-cases (leb (length (b ∷ bs)) size)) [
  | inl e ↦ rw e (some_bytes (ground arith) refl w)
  | inr e ↦ rw e (read_part size b bs es w (ground arith) p)
]
