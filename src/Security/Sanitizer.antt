-- ===== src/Security/Sanitizer.antt =====
-- src/security/sanitizer.rs.
pub mod Host
pub mod Username
use vine.Base.{
  ℕ, ◌≤◌, zero, suc, ◌+◌, ◌<◌, ◌-◌, leb, ltb, ◌==◌, if◌then◌else◌, Bool, true, false, ◌&&◌, ◌||◌,
  not, List, [], ◌∷◌, ◌++◌, Text, length, ◌≡◌, refl, arith, All, In, ◌↔◌, length-append, Bool-cases,
  inl, inr,
}

-- `u8::is_ascii_alphanumeric`
is_ascii_alphanumeric : ℕ → Bool
is_ascii_alphanumeric c =
    (leb b'0' c && leb c b'9') || (leb b'A' c && leb c b'Z') || (leb b'a' c && leb c b'z')

all_name_bytes : Text → Bool
unfolding is_ascii_alphanumeric
all_name_bytes [] = true
all_name_bytes (c ∷ cs) = (is_ascii_alphanumeric c || c == b'_') && all_name_bytes cs

unfoldable pub is_valid_username : Text → Bool
unfolding all_name_bytes
is_valid_username name =
    if leb 2 (length name) && leb (length name) 16 then all_name_bytes name else false

-- A `char` is its code point. `char::is_control` is the general category Cc.
abbrev pub Char : Type 0
Char = ℕ

unfoldable pub is_control : Char → Bool
is_control c = ltb c 32 || (leb 127 c && ltb c 160)

-- `ch != '\0' && !ch.is_control()`
unfoldable pub is_kept : Char → Bool
is_kept ch = not (ch == 0) && not (is_control ch)

-- `char::len_utf8`
unfoldable pub len_utf8 : Char → ℕ
len_utf8 c = if ltb c 0x80 then 1 else if ltb c 0x800 then 2 else if ltb c 0x10000 then 3 else 4

-- `String::len`, in bytes.
unfoldable pub text_len : List Char → ℕ
text_len [] = 0
text_len (c ∷ cs) = len_utf8 c + text_len cs

-- The loop of `sanitize_host`: `clean` is what was pushed so far.
unfoldable pub sanitize_from : List Char → List Char → List Char
sanitize_from clean [] = clean
sanitize_from clean (ch ∷ rest) =
    let next = sanitize_from (if is_kept ch then clean ++ ch ∷ [] else clean) rest in
    if leb 255 (text_len clean) then clean else next

unfoldable pub sanitize_host : List Char → List Char
unfolding sanitize_from
sanitize_host = sanitize_from []

pub is_valid_packet_size : ℕ → ℕ → Bool
is_valid_packet_size size max_allowed = leb size max_allowed
