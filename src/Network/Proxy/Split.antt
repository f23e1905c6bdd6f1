-- ===== src/Network/Proxy/Split.antt =====
-- `str::split` on texts that hold the separator in known places.
use vine.Base.{ℕ, ◌==◌, false, [], ◌∷◌, ◌++◌, Text, All, ◌≡◌, ◌≢◌, refl, arith}
use vine.Network.Proxy.{split_on}

other : (sep c : ℕ) → c ≢ sep → (c == sep) ≡ false
other sep c h = ground arith

pub split_on-front :
    (sep : ℕ) (a b : Text) → All (λ c. c ≢ sep) a → split_on sep (a ++ sep ∷ b) ≡ a ∷ split_on sep b
unfolding split_on
split_on-front sep [] b h = ground arith
split_on-front sep (c ∷ a) b h = rw (other sep c h.0, split_on-front sep a b h.1) refl

pub split_on-last : (sep : ℕ) (a : Text) → All (λ c. c ≢ sep) a → split_on sep a ≡ a ∷ []
unfolding split_on
split_on-last sep [] h = refl
split_on-last sep (c ∷ a) h = rw (other sep c h.0, split_on-last sep a h.1) refl
