-- ===== src/Network/Proxy/Decimal.antt =====
-- What `str::parse` reads as an unsigned number.
use native.Mathlib.Nat.{pow-suc}
use vine.Base.{
  ℕ, zero, suc, ◌+◌, ◌-◌, ◌*◌, ◌^◌, ◌≤◌, true, false, ◌&&◌, leb, ◌==◌, [], ◌∷◌, some, Text, length,
  All, ◌≡◌, ◌≢◌, ◌↔◌, ◌⊎◌, inl, inr, refl, sym, subst, ap, ◌∙◌, arith, Bool-cases, parse_digits,
  parse_unsigned,
}

abbrev pub IsDigit : ℕ → Type 0
IsDigit c = (48 ≤ c) × (c ≤ 57)

-- The value of digits, the first of which counts most.
unfoldable pub decimal : Text → ℕ
decimal [] = 0
decimal (c ∷ cs) = (c - 48) * 10 ^ length cs + decimal cs

-- Digits, at least one, with this value.
abbrev pub IsDecimal : Text → ℕ → Type 0
IsDecimal s n = (s ≢ []) × All IsDigit s × (n ≡ decimal s)

-- Digits behind an optional plus sign, with a value that is at most the limit.
abbrev pub IsNumber : ℕ → Text → ℕ → Type 0
IsNumber limit s n = (IsDecimal s n ⊎ ((t : Text) × (s ≡ 43 ∷ t) × IsDecimal t n)) × (n ≤ limit)

shift : (v d k : ℕ) → v * 10 ^ suc k + d * 10 ^ k ≡ (v * 10 + d) * 10 ^ k
shift v d k = rw (pow-suc 10 k) (grind arith)

grows : (v k : ℕ) → v ≤ v * 10 ^ k
grows v zero = omega arith
grows v (suc k) = rw (pow-suc 10 k) (grind (arith, grows v k))

some_value : (v n : ℕ) → some v ≡ some n → v ≡ n
some_value v n e = cc e

too_big :
    (c next limit : ℕ)
    → (leb b'0' c && leb c b'9' && leb next limit) ≡ false
    → IsDigit c
    → ¬ (next ≤ limit)
too_big c next limit x d l = ground arith

parse_digits_iff :
    (limit v : ℕ) (s : Text) (n : ℕ)
    → v ≤ limit
    → (parse_digits limit v s ≡ some n)
      ↔ (All IsDigit s × (n ≡ v * 10 ^ length s + decimal s) × (n ≤ limit))
unfolding parse_digits decimal
parse_digits_iff limit v [] n b = (
  λ h. let same = some_value v n h in (tt, omega arith, omega arith),
  λ (d, e, l). ap some (omega arith),
)
parse_digits_iff limit v (c ∷ cs) n b =
    let next = v * 10 + (c - 48) in
    let split = shift v (c - 48) (length cs) in
    elim (Bool-cases (leb b'0' c && leb c b'9' && leb next limit)) [
      | inl y ↦
          let fits : next ≤ limit = ground arith in
          let digit : IsDigit c = ground arith in
          let later = parse_digits_iff limit next cs n fits in
          rw y (
            λ h. let (d, e, l) = later.0 h in ((digit, d), omega arith, l),
            λ ((d, ds), e, l). later.1 (ds, omega arith, l),
          )
      | inr x ↦ rw x (
        λ h. absurd cc,
        λ ((d, ds), e, l).
            let more = grows next (length cs) in absurd (too_big c next limit x d (omega arith)),
      )
    ]

parse_digits-All :
    (limit : ℕ) (s : Text) (n : ℕ)
    → (parse_digits limit 0 s ≡ some n) ↔ (All IsDigit s × (n ≡ decimal s) × (n ≤ limit))
parse_digits-All limit s n =
    let iff = parse_digits_iff limit 0 s n (omega arith) in
    (λ h. let (d, e, l) = iff.0 h in (d, omega arith, l), λ (d, e, l). iff.1 (d, omega arith, l))

not_plus : (c : ℕ) (t cs : Text) → (c == b'+') ≡ false → ¬ (c ∷ cs ≡ 43 ∷ t)
not_plus c t cs n e = let same : c ≡ 43 = first_same c 43 cs t e in absurd (ground arith)
  where
    first_same : (a b : ℕ) (u w : Text) → a ∷ u ≡ b ∷ w → a ≡ b
    first_same a b u w e = cc e

rest_same : (c : ℕ) (t cs : Text) → c ∷ cs ≡ 43 ∷ t → cs ≡ t
rest_same c t cs e = cc e

plus_no-IsDigit : (c : ℕ) → (c == b'+') ≡ true → ¬ IsDigit c
plus_no-IsDigit c y d = absurd (ground arith)

-- Digits that no sign stands before.
unsigned :
    (limit c : ℕ) (cs : Text) (n : ℕ)
    → (c == b'+') ≡ false
    → (parse_digits limit 0 (c ∷ cs) ≡ some n) ↔ IsNumber limit (c ∷ cs) n
unsigned limit c cs n bare =
    let iff = parse_digits-All limit (c ∷ cs) n in
    (
      λ h. let (d, e, l) = iff.0 h in (inl ((λ f. absurd cc), d, e), l),
      λ (k, l). elim k [
        | inl (f, d, e) ↦ iff.1 (d, e, l)
        | inr (t, f, d) ↦ absurd (not_plus c t cs bare f)
      ],
    )

-- The parser reads what is a number, and nothing else.
pub parse_unsigned_iff :
    (limit : ℕ) (s : Text) (n : ℕ) → (parse_unsigned limit s ≡ some n) ↔ IsNumber limit s n
unfolding parse_unsigned
parse_unsigned_iff limit [] n = (
  λ h. absurd cc,
  λ (k, l). elim k [ inl (f, d, e) ↦ absurd (f refl) | inr (t, f, d) ↦ absurd cc ],
)
parse_unsigned_iff limit (c ∷ []) n = elim (Bool-cases (c == b'+')) [
  | inr bare ↦ rw bare (unsigned limit c [] n bare)
  | inl y ↦ rw y (
    λ h. absurd cc,
    λ (k, l). elim k [
      | inl (f, d, e) ↦ absurd (plus_no-IsDigit c y d.0)
      | inr (t, f, (g, d, e)) ↦ absurd (g (sym (rest_same c t [] f)))
    ],
  )
]
parse_unsigned_iff limit (c ∷ d ∷ cs) n = elim (Bool-cases (c == b'+')) [
  | inr bare ↦ rw bare (unsigned limit c (d ∷ cs) n bare)
  | inl y ↦
      let iff = parse_digits-All limit (d ∷ cs) n in
      let plus : c ≡ 43 = ground arith in
      rw y (
        λ h.
            let (ds, e, l) = iff.0 h in
            (inr (d ∷ cs, ap (λ x. x ∷ d ∷ cs) plus, ((λ f. absurd cc), ds, e)), l),
        λ (k, l). elim k [
          | inl (f, ds, e) ↦ absurd (plus_no-IsDigit c y ds.0)
          | inr (t, f, (g, ds, e)) ↦
              let same = sym (rest_same c t (d ∷ cs) f) in
              iff.1 (subst (All IsDigit) same ds, e ∙ ap decimal same, l)
        ],
      )
]
