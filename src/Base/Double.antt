-- ===== src/Base/Double.antt =====
-- What the code does with a `double` or a `float`. The type and its operations are a parameter:
-- nothing is assumed of rounding. `IsOrdered` states what IEEE 754 says of `<`, NaN included.
use mathlib.Core.Path.{◌≡◌}
use mathlib.Core.Bool.{Bool, true, false}
use native.Mathlib.Omega.{arith}
use holographic_market.Base.Tests.{if◌then◌else◌}
use holographic_market.Base.Int.{ℤ, pos, ◌+ℤ◌, ◌-ℤ◌, ◌*ℤ◌, div_ℤ, ltb_ℤ, leb_ℤ, eqb_ℤ}

pub record Double (W : Type 0) : Type 0 where
  pub nought : W
  pub one : W
  -- the literal `1e-12`
  pub tiny : W
  pub add : W → W → W
  pub sub : W → W → W
  pub mul : W → W → W
  pub div : W → W → W
  pub lt : W → W → Bool
  pub le : W → W → Bool
  pub eq : W → W → Bool

module _ {W : Type 0} ⦃d : Double W⦄ where
  infix 50 ◌<?◌ ◌≤?◌
  abbrev pub ◌<?◌ : W → W → Bool
  ◌<?◌ = d.lt

  abbrev pub ◌≤?◌ : W → W → Bool
  ◌≤?◌ = d.le

  abbrev pub negate : W → W
  negate x = d.sub d.nought x

  -- `std::min`
  abbrev pub least : W → W → W
  least a b = if d.lt b a then b else a

  -- `std::abs`, up to the sign of a zero.
  abbrev pub magnitude : W → W
  magnitude x = if d.lt x d.nought then negate x else x

-- `<` is never true of a number and itself, of two numbers both ways, or broken in a chain.
pub record IsOrdered (W : Type 0) ⦃d : Double W⦄ : Type 0 where
  pub lt_irrefl : (x : W) → d.lt x x ≡ false
  pub lt_asymm : (x y : W) → d.lt x y ≡ true → d.lt y x ≡ false
  pub lt_trans : (x y z : W) → d.lt x y ≡ true → d.lt y z ≡ true → d.lt x z ≡ true

-- Whole numbers of the smallest amount: a type of exact amounts, for examples.
instance abbrev pub whole : Double ℤ
whole = record {
  nought = pos 0;
  one = pos 1;
  tiny = pos 0;
  add = ◌+ℤ◌;
  sub = ◌-ℤ◌;
  mul = ◌*ℤ◌;
  div = div_ℤ;
  lt = ltb_ℤ;
  le = leb_ℤ;
  eq = eqb_ℤ;
}

ltb_ℤ_irrefl : (x : ℤ) → ltb_ℤ x x ≡ false
ltb_ℤ_irrefl x = ground arith

ltb_ℤ_asymm : (x y : ℤ) → ltb_ℤ x y ≡ true → ltb_ℤ y x ≡ false
ltb_ℤ_asymm x y h = ground arith

ltb_ℤ_trans : (x y z : ℤ) → ltb_ℤ x y ≡ true → ltb_ℤ y z ≡ true → ltb_ℤ x z ≡ true
ltb_ℤ_trans x y z h k = ground arith

pub ℤ-IsOrdered : IsOrdered ℤ
ℤ-IsOrdered = record { lt_irrefl = ltb_ℤ_irrefl; lt_asymm = ltb_ℤ_asymm; lt_trans = ltb_ℤ_trans }
