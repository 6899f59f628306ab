-- ===== src/Float/Ops.antt =====
-- The operations on floats. `lit m k` is the literal m / 10^k, and `inf` is `float("inf")`.
use crypto_arb_engine.Prelude.{ℕ, Bool, true, false, ◌||◌, ◌≡◌, if◌then◌else◌, List, [], ◌∷◌}

pub record Float (F : Type 0) : Type 0 where
  pub nought : F
  pub inf : F
  pub lit : ℕ → ℕ → F
  pub add : F → F → F
  pub sub : F → F → F
  pub mul : F → F → F
  pub div : F → F → F
  pub neg : F → F
  pub lt : F → F → Bool
  pub eq : F → F → Bool

module _ {F : Type 0} ⦃f : Float F⦄ where
  infixl 65 ◌⊕◌ ◌⊖◌
  infixl 70 ◌⊗◌ ◌⊘◌
  infix 50 ◌<?◌ ◌≤?◌ ◌==?◌
  abbrev pub ◌⊕◌ : F → F → F
  ◌⊕◌ = f.add

  abbrev pub ◌⊖◌ : F → F → F
  ◌⊖◌ = f.sub

  abbrev pub ◌⊗◌ : F → F → F
  ◌⊗◌ = f.mul

  -- The code divides only behind a test of the divisor, or in numpy, which does not raise.
  abbrev pub ◌⊘◌ : F → F → F
  ◌⊘◌ = f.div

  abbrev pub ◌<?◌ : F → F → Bool
  ◌<?◌ = f.lt

  abbrev pub ◌==?◌ : F → F → Bool
  ◌==?◌ = f.eq

  -- `x <= y` of IEEE 754.
  abbrev pub ◌≤?◌ : F → F → Bool
  x ≤? y = x <? y || x ==? y

  abbrev pub nought : F
  nought = f.nought

  abbrev pub hundred : F
  hundred = f.lit 100 0

  -- Python's `min(x, y)`, `max(x, y)` and `abs(x)`: the first of two that are equal or unordered.
  unfoldable pub min : F → F → F
  min x y = if y <? x then y else x

  unfoldable pub max : F → F → F
  max x y = if x <? y then y else x

  unfoldable pub abs : F → F
  abs x = if x <? nought then f.neg x else x

  -- Not NaN.
  abbrev pub IsNum : F → Type 0
  IsNum x = x ==? x ≡ true

  -- Not below zero. It holds of NaN, for which every test is false.
  abbrev pub IsNonneg : F → Type 0
  IsNonneg x = x <? nought ≡ false

  -- `sum(...)`, from the left.
  unfoldable pub sum_from : F → List F → F
  sum_from acc [] = acc
  sum_from acc (x ∷ xs) = sum_from (acc ⊕ x) xs
