-- ===== src/Status/Icon/Png.antt =====
-- src/status/icon.rs, `StatusIcon::from_bytes`: which files are icons.
use vine.Status.Icon.{Loaded, ok, err, png_signature, uri_of, from_bytes}
use vine.Base.{
  ℕ, ◌≤◌, true, false, ltb, Option, none, some, Text, codes, text_eq, text_eq_iff, length, take,
  drop, text_key, ◌≡◌, ◌⊎◌, inl, inr, refl, arith, Bool-cases,
}

-- A file that begins as a PNG file does and is not too short.
pub IsPng : Text → Type 0
IsPng bytes =
    (24 ≤ length bytes) × (take 8 bytes ≡ png_signature) × (take 4 (drop 12 bytes) ≡ codes "IHDR")

is_short : (n : ℕ) → ltb n 24 ≡ true → ¬ (24 ≤ n)
is_short n h g = ground arith

is_long : (n : ℕ) → ltb n 24 ≡ false → 24 ≤ n
is_long n h = ground arith

differs : (a b : Text) → text_eq a b ≡ false → ¬ (a ≡ b)
differs a b h e = absurd (ground (arith, text_eq_iff a b))

unfoldable pub data_uri_of : Loaded → Option Text
data_uri_of (ok icon) = some icon.data_uri
data_uri_of (err e) = none

unfoldable pub Dated : Loaded → Option ℕ → Type 0
Dated (ok icon) modified = icon.last_modified ≡ modified
Dated (err e) modified = true ≡ true

module _ (encode : Text → Text) where
  -- The icon of a file, if it has one.
  pub Shows : Option Text → Text → Type 0
  Shows uri bytes =
      (IsPng bytes × (uri ≡ some (uri_of encode bytes))) ⊎ ((¬ IsPng bytes) × (uri ≡ none))

  -- What the loading of bytes gives.
  unfoldable pub Describes : Loaded → Text → Option ℕ → Type 0
  Describes l bytes modified = Shows (data_uri_of l) bytes × Dated l modified

  pub from_bytes-Describes :
      (bytes path : Text) (modified : Option ℕ)
      → Describes (from_bytes encode bytes path modified) bytes modified
  unfolding Describes Dated Shows IsPng from_bytes data_uri_of
  from_bytes-Describes bytes path modified = elim (Bool-cases (ltb (length bytes) 24)) [
    | inl short ↦ rw short (inr (λ png. is_short (length bytes) short png.0, refl), refl)
    | inr long ↦ elim (Bool-cases (text_eq (take 8 bytes) png_signature)) [
      | inl signed ↦ elim (Bool-cases (text_eq (take 4 (drop 12 bytes)) (codes "IHDR"))) [
        | inl header ↦
            rw (long, signed, header)
              (
                inl (
                  (
                    is_long (length bytes) long,
                    (text_eq_iff _ _).0 signed,
                    (text_eq_iff _ _).0 header,
                  ),
                  refl,
                ),
                refl,
              )
        | inr e ↦ rw (long, signed, e) (inr (λ png. differs _ _ e png.2, refl), refl)
      ]
      | inr e ↦ rw (long, e) (inr (λ png. differs _ _ e png.1, refl), refl)
    ]
  ]
