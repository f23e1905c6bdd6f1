-- ===== src/Security/Sanitizer/Username.antt =====
-- `is_valid_username` against Mojang's rule.
use vine.Base.{ℕ, ◌≤◌, ◌==◌, true, ◌||◌, [], ◌∷◌, Text, length, ◌≡◌, ◌⊎◌, refl, arith, All, ◌↔◌}
use vine.Security.Sanitizer.{is_ascii_alphanumeric, all_name_bytes, is_valid_username}

-- A digit, a letter or the underscore, by its code.
abbrev pub IsNameByte : ℕ → Type 0
IsNameByte c = ((48 ≤ c) × (c ≤ 57)) ⊎ ((65 ≤ c) × (c ≤ 90)) ⊎ ((97 ≤ c) × (c ≤ 122)) ⊎ (c ≡ 95)

IsNameByte-iff : (c : ℕ) → ((is_ascii_alphanumeric c || c == b'_') ≡ true) ↔ IsNameByte c
unfolding is_ascii_alphanumeric
IsNameByte-iff c = ground arith

all_name_bytes_iff : (s : Text) → (all_name_bytes s ≡ true) ↔ All IsNameByte s
unfolding all_name_bytes
all_name_bytes_iff [] = (λ _. tt, λ _. refl)
all_name_bytes_iff (c ∷ cs) = (
  λ h. ((IsNameByte-iff c).0 (ground arith), (all_name_bytes_iff cs).0 (ground arith)),
  λ h. ground (arith, (IsNameByte-iff c).1 h.0, (all_name_bytes_iff cs).1 h.1),
)

-- A name is valid exactly if it has 2 to 16 bytes, each an ASCII letter, a digit or the underscore.
pub is_valid_username_iff :
    (name : Text)
    → (is_valid_username name ≡ true)
      ↔ ((2 ≤ length name) × (length name ≤ 16) × All IsNameByte name)
unfolding is_valid_username
is_valid_username_iff name = (
  λ h. (ground arith, ground arith, (all_name_bytes_iff name).0 (ground arith)),
  λ (lo, hi, bytes). ground (arith, (all_name_bytes_iff name).1 bytes),
)
