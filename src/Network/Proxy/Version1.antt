-- ===== src/Network/Proxy/Version1.antt =====
-- src/network/proxy_protocol.rs, `parse_proxy_v1`: the header as its line says it.
use mathlib.Core.Option
use vine.Base.{
  ℕ, suc, ◌+◌, ◌≤◌, Bool, true, false, ◌&&◌, ◌==◌, if◌then◌else◌, List, [], ◌∷◌, ◌++◌, Option, none,
  some, Text, length, take, drop, ◌≡◌, ◌≢◌, ◌⊎◌, inl, inr, refl, sym, ap, ◌∙◌, arith, Bool-cases,
}
use vine.Network.Stream.{Stream, IsWhole, pending}
use vine.Network.Proxy.{
  Parsers, Result, ok, err, SocketAddr, ProxyHeaderResult, ◌>>=◌, ◌>>◌, ensure, find_crlf, split_on,
  cons_head, v1_address, v1_decode, v1_utf8, v1_eof, v1_too_long, parse_proxy_v1,
}
use vine.Network.Proxy.Bytes.{unread}
use vine.Network.Proxy.Lines.{decode_line, decode_v1, Agrees, parse_proxy_v1-Agrees}
use vine.Network.Proxy.Line.{NoCrlf, IsLine, spaced, IsSplit, Says, v1_address-Says}

spaced-char : (c : ℕ) (p : Text) (ps : List Text) → spaced ((c ∷ p) ∷ ps) ≡ c ∷ spaced (p ∷ ps)
unfolding spaced
spaced-char c p [] = refl
spaced-char c p (q ∷ ps) = refl

IsSplit-space : (cs : Text) (parts : List Text) → IsSplit cs parts → IsSplit (32 ∷ cs) ([] ∷ parts)
unfolding spaced
IsSplit-space cs [] (n, e, a) = absurd (n refl)
IsSplit-space cs (p ∷ ps) (n, e, a) = ((λ f. absurd cc), ap (◌∷◌ 32) e, (tt, a))

IsSplit-char :
    (c : ℕ) (cs : Text) (parts : List Text)
    → c ≢ 32
    → IsSplit cs parts
    → IsSplit (c ∷ cs) (cons_head c parts)
unfolding cons_head
IsSplit-char c cs [] d (n, e, a) = absurd (n refl)
IsSplit-char c cs (p ∷ ps) d (n, e, a) =
    ((λ f. absurd cc), ap (◌∷◌ c) e ∙ sym (spaced-char c p ps), ((d, a.0), a.1))

split_on-IsSplit : (t : Text) → IsSplit t (split_on 32 t)
unfolding split_on spaced
split_on-IsSplit [] = ((λ f. absurd cc), refl, (tt, tt))
split_on-IsSplit (c ∷ cs) = elim (Bool-cases (c == 32)) [
  | inl y ↦
      let space : c ≡ 32 = ground arith in
      rw (y, space) (IsSplit-space cs (split_on 32 cs) (split_on-IsSplit cs))
  | inr n ↦
      rw n (IsSplit-char c cs (split_on 32 cs) (λ e. absurd (ground arith)) (split_on-IsSplit cs))
]

heads : (c d x y : ℕ) (u w : Text) → c ∷ d ∷ u ≡ x ∷ y ∷ w → (c ≡ x) × (d ≡ y)
heads c d x y u w e = (cc e, cc e)

tails : (c x : ℕ) (u w : Text) → c ∷ u ≡ x ∷ w → u ≡ w
tails c x u w e = cc e

starts : (c d : ℕ) (u b : Text) → c ∷ d ∷ u ≡ 13 ∷ 10 ∷ b → (c == b'\r' && d == b'\n') ≡ true
starts c d u b e = let (x, y) = heads c d 13 10 u b e in rw (x, y) refl

clash : {b : Bool} → b ≡ true → ¬ (b ≡ false)
clash t f = absurd (let e = sym t ∙ f in cc)

stepped_none :
    (b : Bool) (o : Option ℕ)
    → (if b then some 0 else Option.map suc o) ≡ none
    → (b ≡ false) × (o ≡ none)
stepped_none true o h = absurd cc
stepped_none false none h = (refl, refl)
stepped_none false (some q) h = absurd cc

stepped_some :
    (b : Bool) (o : Option ℕ) (p : ℕ)
    → (if b then some 0 else Option.map suc o) ≡ some p
    → ((b ≡ true) × (p ≡ 0)) ⊎ ((b ≡ false) × (q : ℕ) × (o ≡ some q) × (p ≡ suc q))
stepped_some true o p h = inl (refl, cc)
stepped_some false none p h = absurd cc
stepped_some false (some q) p h = inr (refl, q, refl, cc)

find_crlf-NoCrlf : (t : Text) → find_crlf t ≡ none → NoCrlf t
unfolding find_crlf
find_crlf-NoCrlf [] h [] b e = absurd cc
find_crlf-NoCrlf [] h (x ∷ a) b e = absurd cc
find_crlf-NoCrlf (c ∷ []) h [] b e = absurd cc
find_crlf-NoCrlf (c ∷ []) h (x ∷ []) b e = absurd cc
find_crlf-NoCrlf (c ∷ []) h (x ∷ y ∷ a) b e = absurd cc
find_crlf-NoCrlf (c ∷ d ∷ cs) h [] b e =
    absurd (clash (starts c d cs b e) (stepped_none (c == b'\r' && d == b'\n') _ h).0)
find_crlf-NoCrlf (c ∷ d ∷ cs) h (x ∷ a) b e =
    find_crlf-NoCrlf (d ∷ cs) (stepped_none (c == b'\r' && d == b'\n') _ h).1 a b
      (tails c x (d ∷ cs) _ e)

IsLine-here : (c d : ℕ) (cs : Text) → (c == b'\r' && d == b'\n') ≡ true → IsLine (c ∷ d ∷ cs) [] cs
IsLine-here c d cs y =
    let x : c ≡ 13 = ground arith in
    let z : d ≡ 10 = ground arith in (rw (x, z) refl, λ a b e. omega arith)

IsLine-later :
    (c d : ℕ) (cs line rest : Text)
    → (c == b'\r' && d == b'\n') ≡ false
    → IsLine (d ∷ cs) line rest
    → IsLine (c ∷ d ∷ cs) (c ∷ line) rest
IsLine-later c d cs line rest n (e, least) = (ap (◌∷◌ c) e, first)
  where
    first : (a b : Text) → c ∷ d ∷ cs ≡ a ++ 13 ∷ 10 ∷ b → length (c ∷ line) ≤ length a
    first [] b f = absurd (clash (starts c d cs b f) n)
    first (x ∷ a) b f = omega (arith, least a b (tails c x (d ∷ cs) _ f))

after_suc : (q : ℕ) → suc q + 2 ≡ suc (q + 2)
after_suc q = omega arith

find_crlf-IsLine : (t : Text) (p : ℕ) → find_crlf t ≡ some p → IsLine t (take p t) (drop (p + 2) t)
unfolding find_crlf
find_crlf-IsLine [] p h = absurd cc
find_crlf-IsLine (c ∷ []) p h = absurd cc
find_crlf-IsLine (c ∷ d ∷ cs) p h =
    elim (stepped_some (c == b'\r' && d == b'\n') (find_crlf (d ∷ cs)) p h) [
      | inl (y, e) ↦ rw e (IsLine-here c d cs y)
      | inr (n, q, f, e) ↦
          rw (e, after_suc q) (IsLine-later c d cs _ _ n (find_crlf-IsLine (d ∷ cs) q f))
    ]

-- What was said, with the bytes that are left.
abbrev pub with_rest : Text → Result SocketAddr → Result (SocketAddr × Text)
with_rest rest (ok addr) = ok (addr, rest)
with_rest rest (err e) = err e

-- The result is what the line up to the first CRLF says, with the bytes behind it; or the line is
-- not UTF-8; or there is no CRLF; or there is none in the first 108 bytes.
pub Heeds : Parsers → SocketAddr → Text → Result ProxyHeaderResult → Type 0
Heeds std fallback bytes r =
    ((line : Text) × (rest : Text) × (parts : List Text) × (said : Result SocketAddr) × IsLine bytes
        line rest
      × (std.is_utf8 line ≡ true)
      × IsSplit line parts
      × Says std fallback parts said
      × (unread r ≡ with_rest rest said))
    ⊎ ((line : Text) × (rest : Text) × IsLine bytes line rest
        × (std.is_utf8 line ≡ false)
        × (unread r ≡ err v1_utf8))
    ⊎ (NoCrlf bytes × (unread r ≡ err v1_eof))
    ⊎ ((108 ≤ length bytes) × NoCrlf (take 108 bytes) × (r ≡ err v1_too_long))

bind_rest :
    (m : Result SocketAddr) (rest : Text) → (m >>= λ addr. ok (addr, rest)) ≡ with_rest rest m
bind_rest (ok a) rest = refl
bind_rest (err e) rest = refl

module _ (std : Parsers) (fallback : SocketAddr) (bytes : Text) (r : Result ProxyHeaderResult) where
  decoded-Heeds :
      (p : ℕ) (valid : Bool)
      → find_crlf bytes ≡ some p
      → std.is_utf8 (take p bytes) ≡ valid
      → unread r ≡ (
          ensure valid v1_utf8
          >> (v1_address std fallback (split_on b' ' (take p bytes)) >>= λ addr.
              ok (addr, drop (p + 2) bytes)))
      → Heeds std fallback bytes r
  unfolding Heeds
  decoded-Heeds p true f u e =
      let split = split_on-IsSplit (take p bytes) in
      let said = v1_address std fallback (split_on 32 (take p bytes)) in
      inl (
        take p bytes,
        drop (p + 2) bytes,
        split_on 32 (take p bytes),
        said,
        find_crlf-IsLine bytes p f,
        u,
        split,
        v1_address-Says std fallback _ split.0,
        e ∙ bind_rest said (drop (p + 2) bytes),
      )
  decoded-Heeds p false f u e =
      inr (inl (take p bytes, drop (p + 2) bytes, find_crlf-IsLine bytes p f, u, e))

  line-Heeds :
      (o : Option ℕ)
      → find_crlf bytes ≡ o
      → unread r ≡ decode_line std fallback bytes o
      → Heeds std fallback bytes r
  unfolding decode_line v1_decode Heeds
  line-Heeds none f e = inr (inr (inl (find_crlf-NoCrlf bytes f, e)))
  line-Heeds (some p) f e = decoded-Heeds p (std.is_utf8 (take p bytes)) f refl e

  Agrees-Heeds : Agrees std fallback bytes r → Heeds std fallback bytes r
  unfolding Heeds decode_v1
  Agrees-Heeds (inl e) = line-Heeds (find_crlf bytes) refl e
  Agrees-Heeds (inr (e, long, f)) = inr (inr (inr (long, find_crlf-NoCrlf (take 108 bytes) f, e)))

-- For every stream that does not fail, the v1 parser returns what the line before the first CRLF
-- says and leaves exactly the bytes behind it to read; or it refuses that line, which is not UTF-8;
-- or the header as unfinished, where there is no CRLF; or as too long, where there are at least 108
-- bytes and no CRLF in the first 108. Split at single spaces, a line says the address in its third
-- part and the port in its fifth, as `u16` is parsed, if it has at least six parts, `PROXY` first
-- and `TCP4` or `TCP6` second; the fallback for `UNKNOWN`, if it stands alone behind `PROXY` or in
-- a line of at least six parts; and else the error of what is wrong first.
pub parse_proxy_v1-Heeds :
    (std : Parsers) (fallback : SocketAddr) (initial : Text) (s : Stream)
    → IsWhole s
    → Heeds std fallback (initial ++ pending s) (parse_proxy_v1 std fallback initial s)
parse_proxy_v1-Heeds std fallback initial s w =
    Agrees-Heeds std fallback (initial ++ pending s) _
      (parse_proxy_v1-Agrees std fallback initial s w)
