-- ===== src/Base/Numbers.antt =====
-- Numbers as the standard library reads and casts them.
use mathlib.Core.Path.{◌≡◌}
use mathlib.Core.Bool.{◌&&◌}
use mathlib.Core.Option.{Option, none, some}
use mathlib.Core.List.{[], ◌∷◌}
use native.Mathlib.Omega.{arith}
use Prim.Native.Nat.{◌%◌, ◌^◌, ℕ, suc, ◌+◌, ◌-◌, ◌*◌, ◌≤◌}
use vine.Base.Tests.{ltb, leb, ◌==◌, if◌then◌else◌}
use vine.Base.Bytes.{Text}

-- The library's, over the native ℕ.
pub data ℤ : Type 0 where
  pos negsuc : ℕ → ℤ

-- The digits that are left, behind a value; the value never passes `limit`.
unfoldable pub parse_digits : ℕ → ℕ → Text → Option ℕ
parse_digits limit value [] = some value
parse_digits limit value (c ∷ cs) =
    let next = value * 10 + (c - b'0') in
    let rest = parse_digits limit next cs in
    if leb b'0' c && leb c b'9' && leb next limit then rest else none

-- `str::parse` at an unsigned type with this largest value: an optional `+`, then digits.
unfoldable pub parse_unsigned : ℕ → Text → Option ℕ
parse_unsigned limit [] = none
parse_unsigned limit (c ∷ []) = if c == b'+' then none else parse_digits limit 0 (c ∷ [])
parse_unsigned limit (c ∷ d ∷ cs) = parse_digits limit 0 (if c == b'+' then d ∷ cs else c ∷ d ∷ cs)

abbrev pub parse_u16 : Text → Option ℕ
parse_u16 = parse_unsigned 65535

pub parse_digits-le :
    (limit value : ℕ) (s : Text) (n : ℕ)
    → value ≤ limit
    → parse_digits limit value s ≡ some n
    → n ≤ limit
unfolding parse_digits
parse_digits-le limit value [] n b h = ground arith
parse_digits-le limit value (c ∷ cs) n b h =
    ground (arith, parse_digits-le limit (value * 10 + (c - b'0')) cs n)

-- What is parsed fits the type.
pub parse_unsigned-le : (limit : ℕ) (s : Text) (n : ℕ) → parse_unsigned limit s ≡ some n → n ≤ limit
unfolding parse_unsigned
parse_unsigned-le limit [] n h = cc
parse_unsigned-le limit (c ∷ []) n h = ground (arith, parse_digits-le limit 0 (c ∷ []) n)
parse_unsigned-le limit (c ∷ d ∷ cs) n h =
    parse_digits-le limit 0 (if c == b'+' then d ∷ cs else c ∷ d ∷ cs) n (omega arith) h

-- `usize as i32`
unfoldable pub as_i32 : ℕ → ℤ
as_i32 n = if ltb (n % 2 ^ 32) (2 ^ 31) then pos (n % 2 ^ 32) else negsuc (2 ^ 32 - 1 - n % 2 ^ 32)

-- A signed number of 32 bits `as u32`.
unfoldable pub as_u32 : ℤ → ℕ
as_u32 (pos n) = n
as_u32 (negsuc n) = 2 ^ 32 - suc n
