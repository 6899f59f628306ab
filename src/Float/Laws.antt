-- ===== src/Float/Laws.antt =====
-- What is assumed of floats. The first two groups hold of IEEE 754 doubles, NaN and infinities
-- included; the third holds where no operation rounds, and is asked for only where balances are added
-- up and taken apart again.
use crypto_arb_engine.Prelude.{◌≡◌, true, false}
use crypto_arb_engine.Float.Ops.{Float, ◌⊕◌, ◌⊖◌, ◌⊗◌, ◌⊘◌, ◌<?◌, ◌==?◌, nought, IsNum, IsNonneg}

-- Comparison.
pub record IsOrdered (F : Type 0) ⦃f : Float F⦄ : Type 0 where
  pub lt_irrefl : (x : F) → x <? x ≡ false
  pub lt_trans : (x y z : F) → x <? y ≡ true → y <? z ≡ true → x <? z ≡ true
  pub lt_weak : (x y z : F) → IsNum y → x <? y ≡ false → y <? z ≡ false → x <? z ≡ false
  pub lt_asym : (x y : F) → x <? y ≡ true → y <? x ≡ false
  pub lt_connected :
      (x y : F) → IsNum x → IsNum y → x <? y ≡ false → y <? x ≡ false → x ==? y ≡ true
  pub eq_not_lt : (x y : F) → x ==? y ≡ true → x <? y ≡ false
  pub eq_not_gt : (x y : F) → x ==? y ≡ true → y <? x ≡ false
  pub eq_lt : (x y z : F) → x ==? y ≡ true → x <? z ≡ true → y <? z ≡ true
  pub nought_num : IsNum f.nought
  pub neg_lt : (x y : F) → f.neg x <? f.neg y ≡ y <? x
  pub neg_num : (x : F) → IsNum x → IsNum (f.neg x)

-- Rounding keeps the sign of a result.
pub record IsRounded (F : Type 0) ⦃f : Float F⦄ : Type 0 where
  pub add_nonneg : (x y : F) → IsNonneg x → IsNonneg y → IsNonneg (x ⊕ y)
  pub add_not_below : (x y : F) → IsNonneg y → x ⊕ y <? x ≡ false
  pub sub_nonneg : (x y : F) → x <? y ≡ false → IsNonneg (x ⊖ y)
  pub mul_nonneg : (x y : F) → IsNonneg x → IsNonneg y → IsNonneg (x ⊗ y)
  pub div_nonneg : (x y : F) → IsNonneg x → IsNonneg y → IsNonneg (x ⊘ y)

-- Sums and differences that are not rounded, of numbers that are not NaN and equal only themselves.
pub record IsExact (F : Type 0) ⦃f : Float F⦄ : Type 0 where
  pub add_comm : (x y : F) → x ⊕ y ≡ y ⊕ x
  pub add_assoc : (x y z : F) → x ⊕ y ⊕ z ≡ x ⊕ (y ⊕ z)
  pub add_nought : (x : F) → x ⊕ nought ≡ x
  pub add-sub : (x y : F) → x ⊕ y ⊖ y ≡ x
  pub sub-add : (x y : F) → x ⊖ y ⊕ y ≡ x
  pub num : (x : F) → IsNum x
  pub eq_same : (x y : F) → x ==? y ≡ true → x ≡ y
