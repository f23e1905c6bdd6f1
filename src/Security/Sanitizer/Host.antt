-- ===== src/Security/Sanitizer/Host.antt =====
-- What `sanitize_host` keeps of a host.
use vine.Base.{
  ℕ, ◌/◌, ◌%◌, ltb, false, length, length-append, ◌≤◌, ◌+◌, ◌<◌, leb, if◌then◌else◌, true, List, [],
  ◌∷◌, ◌++◌, ◌≡◌, ◌⊎◌, refl, arith, All, Bool-cases, inl, inr, append_assoc,
}
use vine.Security.Sanitizer.{
  Char, is_control, is_kept, len_utf8, text_len, sanitize_from, sanitize_host,
}

-- Neither NUL nor another control character, by code points.
abbrev pub IsClean : Char → Type 0
IsClean c = (32 ≤ c) × ((c < 127) ⊎ (160 ≤ c))

-- The second list is the clean characters of the first, in order.
pub data Keeps : List Char → List Char → Type 0 where
  nothing_left : Keeps [] []
  keep :
      {ch : Char} {host kept : List Char}
      → IsClean ch
      → Keeps host kept
      → Keeps (ch ∷ host) (ch ∷ kept)
  drop :
      {ch : Char} {host kept : List Char} → ¬ IsClean ch → Keeps host kept → Keeps (ch ∷ host) kept

-- The bytes of a character in UTF-8.
pub utf8 : Char → List ℕ
utf8 c =
    if ltb c 0x80
    then c ∷ []
    else if ltb c 0x800
    then (0xc0 + c / 64) ∷ (0x80 + c % 64) ∷ []
    else if ltb c 0x10000
    then (0xe0 + c / 4096) ∷ (0x80 + c / 64 % 64) ∷ (0x80 + c % 64) ∷ []
    else (0xf0 + c / 262144) ∷ (0x80 + c / 4096 % 64) ∷ (0x80 + c / 64 % 64) ∷ (0x80 + c % 64) ∷ []

pub encoded : List Char → List ℕ
encoded [] = []
encoded (c ∷ cs) = utf8 c ++ encoded cs

length-utf8 : (c : Char) → length (utf8 c) ≡ len_utf8 c
unfolding utf8 len_utf8
length-utf8 c = ground arith

length-encoded : (cs : List Char) → length (encoded cs) ≡ text_len cs
unfolding encoded text_len
length-encoded [] = refl
length-encoded (c ∷ cs) =
    omega (arith, length-append (utf8 c) (encoded cs), length-utf8 c, length-encoded cs)

clean_chars : List Char → List Char
clean_chars [] = []
clean_chars (ch ∷ rest) = if is_kept ch then ch ∷ clean_chars rest else clean_chars rest

is_kept-IsClean : (ch : Char) → is_kept ch ≡ true → IsClean ch
unfolding is_kept is_control
is_kept-IsClean ch h = ground arith

dropped_unclean : (ch : Char) → is_kept ch ≡ false → ¬ IsClean ch
unfolding is_kept is_control
dropped_unclean ch h clean = ground arith

clean_chars-Keeps : (host : List Char) → Keeps host (clean_chars host)
unfolding clean_chars
clean_chars-Keeps [] = nothing_left
clean_chars-Keeps (ch ∷ rest) = elim (Bool-cases (is_kept ch)) [
  | inl e ↦ rw e (keep (is_kept-IsClean ch e) (clean_chars-Keeps rest))
  | inr e ↦ rw e (drop (dropped_unclean ch e) (clean_chars-Keeps rest))
]

clean_chars-IsClean : (host : List Char) → All IsClean (clean_chars host)
unfolding clean_chars
clean_chars-IsClean [] = tt
clean_chars-IsClean (ch ∷ rest) = elim (Bool-cases (is_kept ch)) [
  | inl e ↦ rw e (is_kept-IsClean ch e, clean_chars-IsClean rest)
  | inr e ↦ rw e (clean_chars-IsClean rest)
]

text_len-append : (a b : List Char) → text_len (a ++ b) ≡ text_len a + text_len b
unfolding text_len
text_len-append [] b = omega arith
text_len-append (c ∷ a) b = omega (arith, text_len-append a b)

len_utf8_bounds : (c : Char) → (1 ≤ len_utf8 c) × (len_utf8 c ≤ 4)
unfolding len_utf8
len_utf8_bounds c = ground arith

text_len_one : (c : Char) → text_len (c ∷ []) ≡ len_utf8 c
unfolding text_len
text_len_one c = omega arith

-- The result is the clean characters up to the limit: all of them, or enough to reach 255 bytes.
pub record Truncates (result clean : List Char) : Type 0 where
  pub dropped : List Char
  pub splits : clean ≡ result ++ dropped
  pub full : (dropped ≡ []) ⊎ (255 ≤ length (encoded result))
  pub bounded : length (encoded result) ≤ 258

sanitize_from-Truncates :
    (clean host : List Char)
    → text_len clean ≤ 258
    → Truncates (sanitize_from clean host) (clean ++ clean_chars host)
unfolding sanitize_from clean_chars
sanitize_from-Truncates clean [] b = record {
  dropped = [];
  splits = refl;
  full = inl refl;
  bounded = rw (length-encoded clean) b;
}
sanitize_from-Truncates clean (ch ∷ rest) b = elim (Bool-cases (leb 255 (text_len clean))) [
  | inl e ↦ rw e (record {
    dropped = clean_chars (ch ∷ rest);
    splits = refl;
    full = inr (rw (length-encoded clean) (ground arith));
    bounded = rw (length-encoded clean) b;
  })
  | inr e ↦ elim (Bool-cases (is_kept ch)) [
    | inl p ↦
        rw (e, p)
          (rw append_assoc at (
            sanitize_from-Truncates (clean ++ ch ∷ []) rest (
              ground
                (arith, text_len-append clean (ch ∷ []), len_utf8_bounds ch, text_len_one ch))))
    | inr p ↦ rw (e, p) (sanitize_from-Truncates clean rest b)
  ]
]

All-prefix : (a b : List Char) → All IsClean (a ++ b) → All IsClean a
All-prefix [] b h = tt
All-prefix (x ∷ a) b h = (h.0, All-prefix a b h.1)

-- `sanitize_host` keeps the characters that are no control characters, in order, and leaves some of
-- them off only once the result has 255 bytes in UTF-8; the result has at most 258 bytes and holds
-- neither NUL nor another control character.
pub sanitize_host_lem :
    (host : List Char)
    → (kept : List Char) × Keeps host kept
      × Truncates (sanitize_host host) kept
      × All IsClean (sanitize_host host)
unfolding sanitize_host
sanitize_host_lem host =
    let t = sanitize_from-Truncates [] host (unfold text_len in omega arith) in
    (
      clean_chars host,
      clean_chars-Keeps host,
      t,
      All-prefix _ t.dropped (rw t.splits at (clean_chars-IsClean host)),
    )
