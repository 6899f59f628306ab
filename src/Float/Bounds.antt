-- ===== src/Float/Bounds.antt =====
-- `min` and `max` as bounds. "Not greater" is stated by the strict test, and so holds of NaN too.
use crypto_arb_engine.Prelude.{◌≡◌, true, false, arith}
use crypto_arb_engine.Float.Ops.{Float, ◌⊖◌, ◌<?◌, ◌≤?◌, nought, min, max, IsNonneg}
use crypto_arb_engine.Float.Laws.{IsOrdered, IsRounded, IsExact}

module _ {F : Type 0} ⦃f : Float F⦄ (laws : IsOrdered F) where
  open laws use {lt_irrefl, lt_trans, lt_asym, eq_not_lt, eq_lt}

  pub min_not_above_left : (x y : F) → x <? min x y ≡ false
  unfolding min
  min_not_above_left x y = ground (arith, lt_irrefl x, lt_asym y x)

  pub min_not_above_right : (x y : F) → y <? min x y ≡ false
  unfolding min
  min_not_above_right x y = ground (arith, lt_irrefl y)

  -- What is not above `y` is, after `min`, not above it either.
  pub min_not_above : (x y z : F) → z <? x ≡ false → z <? min x y ≡ false
  unfolding min
  min_not_above x y z h = ground (arith, lt_trans z y x)

  pub max-IsNonneg : (x : F) → IsNonneg (max nought x)
  unfolding max
  max-IsNonneg x = ground (arith, lt_irrefl nought, lt_asym nought x)

  pub min-IsNonneg : (x y : F) → IsNonneg x → IsNonneg y → IsNonneg (min x y)
  unfolding min
  min-IsNonneg x y h k = ground arith

  -- A value that is not `<= 0` and not below zero passes no test against zero.
  pub IsNonneg-of_pos : (x : F) → nought <? x ≡ true → IsNonneg x
  IsNonneg-of_pos x h = lt_asym nought x h

  -- `x <= 0` is false only of a value that is not below zero.
  pub IsNonneg-of_not_le : (x : F) → x ≤? nought ≡ false → IsNonneg x
  IsNonneg-of_not_le x h = ground arith

  -- The clamp `max(0.0, x)` does nothing to an exact number that is not below zero.
  pub max_of_nonneg : IsExact F → (x : F) → IsNonneg x → max nought x ≡ x
  unfolding max
  max_of_nonneg exact x h =
      ground
        (arith, laws.lt_connected nought x (exact.num nought) (exact.num x), exact.eq_same nought x)

  -- What is taken from zero is clamped to zero.
  pub max_nought_sub :
      IsRounded F → IsExact F → (a : F) → IsNonneg a → max nought (nought ⊖ a) ≡ nought
  unfolding max
  max_nought_sub rounded exact a h =
      let below = rounded.add_not_below (nought ⊖ a) a h in
      rw (rw (exact.sub-add nought a) at below)
