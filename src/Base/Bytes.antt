-- ===== src/Base/Bytes.antt =====
-- Texts as their UTF-8 bytes, with the operations of `str` that the program uses. The ASCII
-- operations change bytes below 128 only, so they are the same on bytes and on characters.
use Prim.Native.Char.{code}
use Prim.Native.String.{String}
use Prim.Native.Nat.{ℕ, ◌+◌}
use mathlib.Core.Path.{◌≡◌, refl}
use mathlib.Core.Logic.{◌↔◌}
use mathlib.Core.Bool.{Bool, true, false, ◌&&◌}
use mathlib.Core.Option.{Option, none, some}
use mathlib.Core.Option
use mathlib.Core.List.{List, [], ◌∷◌, ◌++◌}
use native.Mathlib.Omega.{arith}
use mathlib.Core.Path.{ap}
use mathlib.Core.Logic.{inl, inr}
use vine.Base.Tests.{leb, ◌==◌, if◌then◌else◌, Bool-cases, Option-cases}
use vine.Base.Lists.{length, length-append}

abbrev pub Text : Type 0
Text = List ℕ

-- The bytes of an ASCII literal.
abbrev pub codes : String → Text
codes String.[] = []
codes (String.◌∷◌ c s) = code c ∷ codes s

unfoldable pub text_eq : Text → Text → Bool
text_eq [] [] = true
text_eq [] (y ∷ ys) = false
text_eq (x ∷ xs) [] = false
text_eq (x ∷ xs) (y ∷ ys) = x == y && text_eq xs ys

pub text_eq_iff : (a b : Text) → (text_eq a b ≡ true) ↔ (a ≡ b)
unfolding text_eq
text_eq_iff [] [] = ground arith
text_eq_iff [] (y ∷ ys) = ground arith
text_eq_iff (x ∷ xs) [] = ground arith
text_eq_iff (x ∷ xs) (y ∷ ys) = ground (arith, text_eq_iff xs ys)

unfoldable pub is_ascii_uppercase : ℕ → Bool
is_ascii_uppercase c = leb b'A' c && leb c b'Z'

unfoldable pub to_lower : ℕ → ℕ
unfolding is_ascii_uppercase
to_lower c = if is_ascii_uppercase c then c + 32 else c

unfoldable pub to_ascii_lowercase : Text → Text
unfolding to_lower
to_ascii_lowercase [] = []
to_ascii_lowercase (c ∷ cs) = to_lower c ∷ to_ascii_lowercase cs

unfoldable pub eq_ignore_ascii_case : Text → Text → Bool
unfolding to_lower
eq_ignore_ascii_case [] [] = true
eq_ignore_ascii_case [] (y ∷ ys) = false
eq_ignore_ascii_case (x ∷ xs) [] = false
eq_ignore_ascii_case (x ∷ xs) (y ∷ ys) = to_lower x == to_lower y && eq_ignore_ascii_case xs ys

to_lower_idem : (c : ℕ) → to_lower (to_lower c) ≡ to_lower c
unfolding to_lower
to_lower_idem c = ground arith

pub to_ascii_lowercase_idem :
    (s : Text) → to_ascii_lowercase (to_ascii_lowercase s) ≡ to_ascii_lowercase s
unfolding to_ascii_lowercase
to_ascii_lowercase_idem [] = refl
to_ascii_lowercase_idem (c ∷ cs) = cc (to_lower_idem c, to_ascii_lowercase_idem cs)

pub eq_ignore_ascii_case_iff :
    (a b : Text) → (eq_ignore_ascii_case a b ≡ true) ↔ (to_ascii_lowercase a ≡ to_ascii_lowercase b)
unfolding eq_ignore_ascii_case to_ascii_lowercase
eq_ignore_ascii_case_iff [] [] = ground arith
eq_ignore_ascii_case_iff [] (y ∷ ys) = ground arith
eq_ignore_ascii_case_iff (x ∷ xs) [] = ground arith
eq_ignore_ascii_case_iff (x ∷ xs) (y ∷ ys) = ground (arith, eq_ignore_ascii_case_iff xs ys)

-- `str::strip_prefix`: what follows the prefix, if the text begins with it.
unfoldable pub strip_prefix : Text → Text → Option Text
strip_prefix [] s = some s
strip_prefix (p ∷ ps) [] = none
strip_prefix (p ∷ ps) (c ∷ cs) = if c == p then strip_prefix ps cs else none

pub strip_prefix_iff : (p s r : Text) → (strip_prefix p s ≡ some r) ↔ (s ≡ p ++ r)
unfolding strip_prefix
strip_prefix_iff [] s r = ground arith
strip_prefix_iff (p ∷ ps) [] r = ground arith
strip_prefix_iff (p ∷ ps) (c ∷ cs) r = ground (arith, strip_prefix_iff ps cs r)

-- `str::starts_with`
unfoldable pub starts_with : Text → Text → Bool
starts_with [] s = true
starts_with (p ∷ ps) [] = false
starts_with (p ∷ ps) (c ∷ cs) = c == p && starts_with ps cs

pub starts_with-strip_prefix :
    (p s : Text)
    → starts_with p s ≡ elim (strip_prefix p s) as (λ _. Bool) [ none ↦ false | some r ↦ true ]
unfolding starts_with strip_prefix
starts_with-strip_prefix [] s = refl
starts_with-strip_prefix (p ∷ ps) [] = refl
starts_with-strip_prefix (p ∷ ps) (c ∷ cs) = ground (arith, starts_with-strip_prefix ps cs)

-- `str::strip_suffix`: what stands before the suffix, if the text ends with it.
unfoldable pub strip_suffix : Text → Text → Option Text
unfolding text_eq
strip_suffix suffix [] = if text_eq [] suffix then some [] else none
strip_suffix suffix (c ∷ cs) =
    if text_eq (c ∷ cs) suffix
    then some []
    else Option.map (λ before. c ∷ before) (strip_suffix suffix cs)

longer_ne : (c : ℕ) (s p : Text) → text_eq (c ∷ s ++ p) p ≡ false
longer_ne c s p = elim (Bool-cases (text_eq (c ∷ s ++ p) p)) [
  | inl e ↦ absurd (omega (arith, length-append s p, ap length ((text_eq_iff (c ∷ s ++ p) p).0 e)))
  | inr e ↦ e
]

pub text_eq_refl : (s : Text) → text_eq s s ≡ true
text_eq_refl s = (text_eq_iff s s).1 refl

strip_suffix-append : (s p : Text) → strip_suffix p (s ++ p) ≡ some s
unfolding strip_suffix
strip_suffix-append [] [] = refl
strip_suffix-append [] (c ∷ p) = rw (text_eq_refl (c ∷ p))
strip_suffix-append (c ∷ s) p = rw (longer_ne c s p, strip_suffix-append s p)

strip_suffix_sound : (p s r : Text) → strip_suffix p s ≡ some r → s ≡ r ++ p
unfolding strip_suffix
strip_suffix_sound p [] r h = ground (arith, text_eq_iff [] p)
strip_suffix_sound p (c ∷ cs) r h = elim (Bool-cases (text_eq (c ∷ cs) p)) [
  | inl e ↦ ground (arith, text_eq_iff (c ∷ cs) p)
  | inr e ↦ elim (Option-cases (strip_suffix p cs)) [
    | inl n ↦ ground arith
    | inr (b, m) ↦ ground (arith, strip_suffix_sound p cs b m)
  ]
]

pub strip_suffix_iff : (p s r : Text) → (strip_suffix p s ≡ some r) ↔ (s ≡ r ++ p)
strip_suffix_iff p s r = (strip_suffix_sound p s r, λ e. rw e (strip_suffix-append r p))

pub starts_with_iff : (p s : Text) → (starts_with p s ≡ true) ↔ ((r : Text) × (s ≡ p ++ r))
starts_with_iff p s = (
  λ h. elim (Option-cases (strip_prefix p s)) [
    | inl e ↦ ground (arith, starts_with-strip_prefix p s)
    | inr (r, e) ↦ (r, (strip_prefix_iff p s r).0 e)
  ],
  λ h. ground (arith, starts_with-strip_prefix p s, (strip_prefix_iff p s h.0).1 h.1),
)
