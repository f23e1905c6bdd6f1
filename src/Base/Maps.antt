-- ===== src/Base/Maps.antt =====
-- Keys with a Boolean equality, and hash maps as association lists in the order of their iterator.
use mathlib.Core.Path.{◌≡◌, refl}
use mathlib.Core.Logic.{◌↔◌, inl, inr}
use mathlib.Core.Bool.{Bool, true, false}
use mathlib.Core.Option.{Option, none, some}
use mathlib.Core.List.{List, [], ◌∷◌}
use native.Mathlib.Omega.{arith}
use Prim.Native.Nat.{ℕ, ◌+◌}
use vine.Base.Tests.{if◌then◌else◌, Bool-cases}
use vine.Base.Lists.{length, In}
use vine.Base.Bytes.{Text, text_eq, text_eq_iff}

pub record Eq (A : Type 0) : Type 0 where
  pub beq : A → A → Bool
  pub beq_iff : (a b : A) → (beq a b ≡ true) ↔ (a ≡ b)

instance abbrev pub text_key : Eq Text
text_key = record { beq = text_eq; beq_iff = text_eq_iff }

-- An address: four or sixteen bytes, in network order.
pub data IpAddr : Type 0 where
  v4 v6 : Text → IpAddr

unfoldable pub ip_eq : IpAddr → IpAddr → Bool
ip_eq (v4 a) (v4 b) = text_eq a b
ip_eq (v4 a) (v6 b) = false
ip_eq (v6 a) (v4 b) = false
ip_eq (v6 a) (v6 b) = text_eq a b

pub ip_eq_iff : (a b : IpAddr) → (ip_eq a b ≡ true) ↔ (a ≡ b)
unfolding ip_eq
ip_eq_iff (v4 a) (v4 b) = ground (arith, text_eq_iff a b)
ip_eq_iff (v4 a) (v6 b) = ground arith
ip_eq_iff (v6 a) (v4 b) = ground arith
ip_eq_iff (v6 a) (v6 b) = ground (arith, text_eq_iff a b)

instance abbrev pub ip_key : Eq IpAddr
ip_key = record { beq = ip_eq; beq_iff = ip_eq_iff }

module _ {K V : Type 0} ⦃e : Eq K⦄ where
  unfoldable pub lookup : List (K × V) → K → Option V
  lookup [] k = none
  lookup ((j, v) ∷ m) k = if e.beq j k then some v else lookup m k

  unfoldable pub insert : List (K × V) → K → V → List (K × V)
  insert [] k v = (k, v) ∷ []
  insert ((j, w) ∷ m) k v = if e.beq j k then (j, v) ∷ m else (j, w) ∷ insert m k v

  -- All the entries of the key go, of which a well-formed map has one at most.
  unfoldable pub remove : List (K × V) → K → List (K × V)
  remove [] k = []
  remove ((j, w) ∷ m) k = if e.beq j k then remove m k else (j, w) ∷ remove m k

  unfoldable pub retain : (K × V → Bool) → List (K × V) → List (K × V)
  retain keep [] = []
  retain keep (x ∷ m) = if keep x then x ∷ retain keep m else retain keep m

  pub lookup-insert :
      (m : List (K × V)) (k j : K) (v : V)
      → lookup (insert m k v) j ≡ (if e.beq k j then some v else lookup m j)
  unfolding lookup insert
  lookup-insert [] k j v = refl
  lookup-insert ((i, w) ∷ m) k j v =
      ground (arith, e.beq_iff k j, e.beq_iff i k, e.beq_iff i j, lookup-insert m k j v)

  pub lookup-insert_self : (m : List (K × V)) (k : K) (v : V) → lookup (insert m k v) k ≡ some v
  lookup-insert_self m k v = rw (lookup-insert m k k v, (e.beq_iff k k).1 refl)

  pub lookup-remove :
      (m : List (K × V)) (k j : K)
      → lookup (remove m k) j ≡ (if e.beq k j then none else lookup m j)
  unfolding lookup remove
  lookup-remove [] k j = ground arith
  lookup-remove ((i, w) ∷ m) k j =
      ground (arith, e.beq_iff k j, e.beq_iff i k, e.beq_iff i j, lookup-remove m k j)

  -- Each key stands once.
  abbrev pub DistinctKeys : List (K × V) → Type 0
  DistinctKeys [] = Unit
  DistinctKeys ((k, v) ∷ m) = (lookup m k ≡ none) × DistinctKeys m

  pub insert-DistinctKeys :
      (m : List (K × V)) (k : K) (v : V) → DistinctKeys m → DistinctKeys (insert m k v)
  unfolding insert lookup
  insert-DistinctKeys [] k v d = (refl, tt)
  insert-DistinctKeys ((j, w) ∷ m) k v d =
      ground
        (arith, insert-DistinctKeys m k v d.1, lookup-insert m k j v, e.beq_iff j k, e.beq_iff k j)

  pub remove-DistinctKeys : (m : List (K × V)) (k : K) → DistinctKeys m → DistinctKeys (remove m k)
  unfolding remove
  remove-DistinctKeys [] k d = tt
  remove-DistinctKeys ((j, w) ∷ m) k d =
      ground (arith, remove-DistinctKeys m k d.1, lookup-remove m k j)

  pub length-insert :
      (m : List (K × V)) (k : K) (v : V)
      → length (insert m k v) ≡ length m + elim (lookup m k) as (λ _. ℕ) [ none ↦ 1 | some _ ↦ 0 ]
  unfolding insert lookup
  length-insert [] k v = refl
  length-insert ((j, w) ∷ m) k v = ground (arith, length-insert m k v)

  remove_absent : (m : List (K × V)) (k : K) → lookup m k ≡ none → remove m k ≡ m
  unfolding remove lookup
  remove_absent [] k h = refl
  remove_absent ((j, w) ∷ m) k h = ground (arith, remove_absent m k)

  pub length-remove :
      (m : List (K × V)) (k : K)
      → DistinctKeys m
      → length (remove m k) + elim (lookup m k) as (λ _. ℕ) [ none ↦ 0 | some _ ↦ 1 ] ≡ length m
  unfolding remove lookup
  length-remove [] k d = refl
  length-remove ((j, w) ∷ m) k d =
      ground (arith, length-remove m k d.1, remove_absent m k, e.beq_iff j k)

  pub In-lookup :
      (m : List (K × V)) (k : K) (v : V) → DistinctKeys m → In (k, v) m → lookup m k ≡ some v
  unfolding lookup
  In-lookup [] k v d i = absurd i
  In-lookup ((j, w) ∷ m) k v d (inl x) = ground (arith, e.beq_iff j k)
  In-lookup ((j, w) ∷ m) k v d (inr i) = ground (arith, In-lookup m k v d.1 i, e.beq_iff j k)

  pub lookup-In : (m : List (K × V)) (k : K) (v : V) → lookup m k ≡ some v → In (k, v) m
  unfolding lookup
  lookup-In [] k v h = cc
  lookup-In ((j, w) ∷ m) k v h = elim (Bool-cases (e.beq j k)) [
    | inl x ↦ inl (ground (arith, e.beq_iff j k))
    | inr x ↦ inr (lookup-In m k v (ground arith))
  ]

  -- An entry that passes the test stays.
  pub lookup-retain :
      (keep : K × V → Bool) (m : List (K × V)) (k : K) (v : V)
      → keep (k, v) ≡ true
      → lookup m k ≡ some v
      → lookup (retain keep m) k ≡ some v
  unfolding lookup retain
  lookup-retain keep [] k v t h = h
  lookup-retain keep ((j, w) ∷ m) k v t h =
      ground (arith, lookup-retain keep m k v t, e.beq_iff j k)

  pub lookup-retain-none :
      (keep : K × V → Bool) (m : List (K × V)) (k : K)
      → lookup m k ≡ none
      → lookup (retain keep m) k ≡ none
  unfolding lookup retain
  lookup-retain-none keep [] k h = h
  lookup-retain-none keep ((j, w) ∷ m) k h = ground (arith, lookup-retain-none keep m k)
