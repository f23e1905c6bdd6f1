-- ===== src/Backend/Forwarding/Readers.antt =====
-- Readers of bytes, and what it means that one reads what a writer wrote.
use mathlib.Core.Option.{some-injective}
use vine.Base.{
  ℕ, leb, if◌then◌else◌, true, ◌++◌, Option, none, some, Text, length, take, drop, take-length,
  drop-length, length-append, append_assoc, ◌≡◌, refl, arith,
}
use vine.Backend.Forwarding.{◌▹◌}

abbrev pub Reader {ℓ} : Type ℓ → Type ℓ
Reader A = Text → Option (A × Text)

abbrev pub give {ℓ} : {A : Type ℓ} → A → Reader A
give a t = some (a, t)

abbrev after {ℓ κ} :
    {A : Type ℓ} {B : Type κ} → (A → Reader B) → Option (A × Text) → Option (B × Text)
after next none = none
after next (some (a, rest)) = next a rest

-- One reader behind another.
abbrev pub chain {ℓ κ} : {A : Type ℓ} {B : Type κ} → Reader A → (A → Reader B) → Reader B
chain first next t = after next (first t)

abbrev pub get_bytes : ℕ → Reader Text
get_bytes n t = if leb n (length t) then some (take n t, drop n t) else none

-- Whatever the writer gave, the reader takes it off the front and gets the value.
abbrev pub Inverts {ℓ} : {A : Type ℓ} → Reader A → A → Option Text → Type ℓ
Inverts get a w = (bytes rest : Text) → w ≡ some bytes → get (bytes ++ rest) ≡ some (a, rest)

▹-split :
    (w v : Option Text) (bytes : Text)
    → w ▹ v ≡ some bytes
    → (x : Text) × (y : Text) × (w ≡ some x) × (v ≡ some y) × (x ++ y ≡ bytes)
▹-split none v bytes h = absurd cc
▹-split (some x) none bytes h = absurd cc
▹-split (some x) (some y) bytes h = (x, y, refl, refl, some-injective (x ++ y) bytes h)

module _ {A B : Type 0} (get : Reader A) (next : A → Reader B) {a : A} {b : B} where
  pub Inverts-chain :
      {w v : Option Text}
      → Inverts get a w
      → Inverts (next a) b v
      → Inverts (chain get next) b (w ▹ v)
  Inverts-chain {w} {v} f g bytes rest h =
      let (x, y, p, q, e) = ▹-split w v bytes h in
      rw (← e, append_assoc x y rest, f x (y ++ rest) p) (g y rest q)

  pub Inverts-last :
      {w : Option Text}
      → Inverts get a w
      → ((t : Text) → next a t ≡ some (b, t))
      → Inverts (chain get next) b w
  Inverts-last f g bytes rest h = rw (f bytes rest h) (g rest)

pub Inverts-bytes : (t : Text) {n : ℕ} → length t ≡ n → Inverts (get_bytes n) t (some t)
Inverts-bytes t h bytes rest e =
    let same : t ≡ bytes = some-injective t bytes e in
    let long : leb (length bytes) (length (bytes ++ rest)) ≡ true =
      ground (arith, length-append bytes rest) in
    rw (← h, same, long, take-length bytes rest, drop-length bytes rest)
