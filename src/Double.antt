-- ===== src/Double.antt =====
-- What the program does with a C++ `double` (the types Bandwidth and Latency of common/Type.h): a
-- type and its operations as a parameter, for there are no floating-point numbers here. The laws
-- are those that a proof relies on, and hold of IEEE 754; `Rational` meets them with exact
-- fractions. `to_uint64` is `static_cast<EventTime>`: it has no value where the cast is undefined.
pub mod Rational
use astra_network_analytical.Base.{ℕ, ◌^◌, ◌≤◌, ◌<◌, ◌≡◌, Bool, true, Option, some}
use astra_network_analytical.Base.Int.{ℤ, pos}

pub record Double (W : Type 0) : Type 0 where
  pub of_int : ℤ → W
  pub add : W → W → W
  pub mul : W → W → W
  pub div : W → W → W
  pub le : W → W → Bool
  pub lt : W → W → Bool
  pub eq : W → W → Bool
  pub to_uint64 : W → Option ℕ

module _ {W : Type 0} ⦃d : Double W⦄ where
  abbrev pub of_nat : ℕ → W
  of_nat n = d.of_int (pos n)

  abbrev pub nought : W
  nought = of_nat 0

pub record DoubleLaws (W : Type 0) ⦃d : Double W⦄ : Type 0 where
  -- The cast has a value only within the range of the type.
  pub to_uint64-lt : (x : W) (n : ℕ) → d.to_uint64 x ≡ some n → n < 2 ^ 64
  pub to_uint64-mono :
      (x y : W) (m n : ℕ)
      → d.le x y ≡ true
      → d.to_uint64 x ≡ some m
      → d.to_uint64 y ≡ some n
      → m ≤ n
  -- Adding what is not negative to a finite number does not lower it.
  pub le-add :
      (l x : W) (m : ℕ) → d.le nought l ≡ true → d.to_uint64 x ≡ some m → d.le x (d.add l x) ≡ true
