-- ===== src/Security/Float.antt =====
-- The `f64` of the rate limiter: what the code does with it, and the laws of IEEE 754 that the
-- proofs rest on. The integers are those below 2 ^ 32, which are exact.
use vine.Base.{ℕ, ◌+◌, ◌-◌, ◌*◌, ◌/◌, ◌^◌, ◌<◌, min, Bool, true, false, leb, ◌≡◌, arith}

pub record Float : Type 1 where
  pub F : Type 0
  -- `u32 as f64`
  pub of_ℕ : ℕ → F
  -- `Duration::as_secs_f64`, of a number of nanoseconds
  pub secs : ℕ → F
  pub add : F → F → F
  pub mul : F → F → F
  pub sub : F → F → F
  -- `f64::min`
  pub least : F → F → F
  -- `>=`
  pub ge : F → F → Bool

pub record FloatLaws (f : Float) : Type 0 where
  pub ge-of_ℕ : (m n : ℕ) → m < 2 ^ 32 → n < 2 ^ 32 → f.ge (f.of_ℕ m) (f.of_ℕ n) ≡ leb n m
  pub sub-of_ℕ : (n : ℕ) → n + 1 < 2 ^ 32 → f.sub (f.of_ℕ (n + 1)) (f.of_ℕ 1) ≡ f.of_ℕ n
  pub least-of_ℕ :
      (m n : ℕ) → m < 2 ^ 32 → n < 2 ^ 32 → f.least (f.of_ℕ m) (f.of_ℕ n) ≡ f.of_ℕ (min m n)
  -- No time, no new tokens.
  pub add_zero :
      (n r : ℕ)
      → n < 2 ^ 32
      → r < 2 ^ 32
      → f.add (f.of_ℕ n) (f.mul (f.secs 0) (f.of_ℕ r)) ≡ f.of_ℕ n
  -- Also where the first argument is no number.
  pub ge-least : (x : f.F) (n : ℕ) → n < 2 ^ 32 → f.ge (f.of_ℕ n) (f.least x (f.of_ℕ n)) ≡ true
  pub ge-least_mono :
      (x : f.F) (m n r : ℕ)
      → m < 2 ^ 32
      → n < 2 ^ 32
      → r < 2 ^ 32
      → f.ge (f.of_ℕ n) x ≡ true
      → f.ge (f.of_ℕ n) (f.least (f.add x (f.mul (f.secs 0) (f.of_ℕ r))) (f.of_ℕ m)) ≡ true
  pub ge-sub :
      (x : f.F) (n : ℕ)
      → n + 1 < 2 ^ 32
      → f.ge (f.of_ℕ (n + 1)) x ≡ true
      → f.ge (f.of_ℕ n) (f.sub x (f.of_ℕ 1)) ≡ true
  pub ge_zero : (x : f.F) → f.ge (f.of_ℕ 0) x ≡ true → f.ge x (f.of_ℕ 1) ≡ false

-- Fixed-point numbers with nine decimals.
abbrev pub nanos : Float
nanos = record {
  F = ℕ;
  of_ℕ = λ n. n * 1_000_000_000;
  secs = λ n. n;
  add = λ a b. a + b;
  mul = λ a b. a * b / 1_000_000_000;
  sub = λ a b. a - b;
  least = λ a b. min a b;
  ge = λ a b. leb b a;
}

pub nanos_laws : FloatLaws nanos
nanos_laws = record {
  ge-of_ℕ = λ m n hm hn. ground arith;
  sub-of_ℕ = λ n h. omega arith;
  least-of_ℕ = λ m n hm hn. omega arith;
  add_zero = λ n r hn hr. omega arith;
  ge-least = λ x n h. ground arith;
  ge-least_mono = λ x m n r hm hn hr g. ground arith;
  ge-sub = λ x n h g. ground arith;
  ge_zero = λ x g. ground arith;
}
