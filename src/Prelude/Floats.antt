-- ===== src/Prelude/Floats.antt =====
-- `float`: the language's binary64 numbers as an interface. There are no floats to compute with, so
-- a model takes the type, the operations that the sources call, and the few laws that it needs.
-- Every law holds of IEEE 754 arithmetic, not-a-number and the infinities included. Division by an
-- int converts the int first, which raises where the int is too large for a float: `fits` tells.
use Prim.Native.Nat.{ℕ, ◌+◌, ◌-◌, ◌/◌, ◌<◌, ◌≤◌}
use mathlib.Core.Bool.{Bool, false, not, true, ◌&&◌}
use mathlib.Core.Path.{refl, ◌≡◌}
use native.Mathlib.Omega.{arith}
use omf_retrieval.Prelude.Tests.{leb}

pub record Floats : Type 1 where
  pub F : Type 0
  pub zero : F
  pub one : F
  pub minus_one : F
  pub is_finite : F → Bool
  -- `a <= b`
  pub le : F → F → Bool
  pub add : F → F → F
  pub sub : F → F → F
  -- `a / n` by an int
  pub div : F → ℕ → F
  -- whether an int converts to a float
  pub fits : ℕ → Bool
  pub le_trans : (a b c : F) → le a b ≡ true → le b c ≡ true → le a c ≡ true
  -- numbers that are at least zero are comparable
  pub le_total : (a b : F) → le zero a ≡ true → le zero b ≡ true → le a b ≡ false → le b a ≡ true
  pub zero_nonneg : le zero zero ≡ true
  pub add_nonneg : (a b : F) → le zero a ≡ true → le zero b ≡ true → le zero (add a b) ≡ true
  -- an int below one that converts converts
  pub fits_mono : (m n : ℕ) → m ≤ n → fits n ≡ true → fits m ≡ true
  pub div_nonneg : (a : F) (n : ℕ) → le zero a ≡ true → 0 < n → le zero (div a n) ≡ true

module _ ⦃fl : Floats⦄ where
  abbrev pub Float : Type 0
  Float = fl.F

  abbrev pub Nonneg : Float → Type 0
  Nonneg a = fl.le fl.zero a ≡ true

  -- `a < b`
  unfoldable pub float_lt : Float → Float → Bool
  float_lt a b = fl.le a b && not (fl.le b a)

  -- `a == b`
  unfoldable pub float_eq : Float → Float → Bool
  float_eq a b = fl.le a b && fl.le b a

-- Numbers in steps of a millionth, cut off at 0: an instance to run the models on.
pub micros_total : (a b : ℕ) → leb 0 a ≡ true → leb 0 b ≡ true → leb a b ≡ false → leb b a ≡ true
micros_total a b p q h = ground arith

pub micros_trans : (a b c : ℕ) → leb a b ≡ true → leb b c ≡ true → leb a c ≡ true
micros_trans a b c p q = ground arith

pub micros_nonneg : (a : ℕ) → leb 0 a ≡ true
micros_nonneg a = ground arith

abbrev pub micros : Floats
micros = record {
  F = ℕ;
  zero = 0;
  one = 1000000;
  minus_one = 0;
  is_finite = λ a. true;
  le = leb;
  add = λ a b. a + b;
  sub = λ a b. a - b;
  div = λ a n. a / n;
  fits = λ n. true;
  fits_mono = λ m n _ _. refl;
  le_trans = micros_trans;
  le_total = micros_total;
  zero_nonneg = micros_nonneg 0;
  add_nonneg = λ a b _ _. micros_nonneg (a + b);
  div_nonneg = λ a n _ _. micros_nonneg (a / n);
}
