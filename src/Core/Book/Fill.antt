-- ===== src/Core/Book/Fill.antt =====
-- What `vwap_fill_price` fills.
use crypto_arb_engine.Prelude.{
  ◌≡◌, refl, sym, ◌∙◌, ap, true, false, List, [], ◌∷◌, ◌⊎◌, inl, inr, Bool-cases, arith,
  if◌then◌else◌, map, All,
}
use crypto_arb_engine.Float.{
  Float, ◌⊕◌, ◌⊖◌, ◌⊗◌, ◌<?◌, ◌≤?◌, nought, min, sum_from, IsNonneg, IsOrdered, IsRounded, IsExact,
}
use crypto_arb_engine.Float.Bounds.{min_not_above_left, min_not_above_right, min-IsNonneg}
use crypto_arb_engine.Core.Types.{Side, is_buy}
use crypto_arb_engine.Core.Book.Defs.{BookState, Level, fill, vwap_fill_price}

module _ {F : Type 0} ⦃f : Float F⦄ (ordered : IsOrdered F) (rounded : IsRounded F)
    (exact : IsExact F) where
  open exact use {add_comm, add_assoc, add_nought, add-sub, sub-add, eq_same}

  nought_add : (x : F) → nought ⊕ x ≡ x
  nought_add x = add_comm nought x ∙ add_nought x

  sub_self : (x : F) → x ⊖ x ≡ nought
  sub_self x = ap (λ (y : F). y ⊖ x) (sym (nought_add x)) ∙ add-sub nought x

  -- Moving `t` from what remains to what is filled keeps the sum.
  move_take : (filled r t : F) → filled ⊕ t ⊕ (r ⊖ t) ≡ filled ⊕ r
  move_take filled r t =
      add_assoc filled t (r ⊖ t) ∙ ap (λ (y : F). filled ⊕ y) (add_comm t (r ⊖ t) ∙ sub-add r t)

  -- The filled size and some rest that is not negative make up the size.
  fill_rest :
      (r cost filled : F) (levels : List (Level F))
      → IsNonneg r
      → (rest : F) × (IsNonneg rest) × ((fill r cost filled levels).1 ⊕ rest ≡ filled ⊕ r)
  unfolding fill
  fill_rest r cost filled [] h = (r, h, refl)
  fill_rest r cost filled ((p, s) ∷ levels) h =
      let t = min r s in
      let nonneg : IsNonneg (r ⊖ t) = rounded.sub_nonneg r t (min_not_above_left ordered r s) in
      let (rest, rest_nonneg, sum) = fill_rest (r ⊖ t) (cost ⊕ t ⊗ p) (filled ⊕ t) levels nonneg in
      elim (Bool-cases ((r ⊖ t) ≤? nought)) [
        | inl e ↦ (r ⊖ t, nonneg, rw e (move_take filled r t))
        | inr e ↦ (rest, rest_nonneg, rw e (sum ∙ move_take filled r t))
      ]

  -- A rest that passes `<= 0` is zero.
  rest_nought : (x : F) → IsNonneg x → x ≤? nought ≡ true → x ≡ nought
  rest_nought x h e = eq_same x nought (ground arith)

  -- A take that is not the level's size leaves nothing.
  take_level : (r s : F) → (r ⊖ min r s) ≤? nought ≡ false → min r s ≡ s
  unfolding min
  take_level r s e = ground (arith, sub_self r, ordered.nought_num)

  -- The loop ends with the whole size filled, or with every level taken whole.
  fill_all :
      (r cost filled : F) (levels : List (Level F))
      → IsNonneg r
      → ((fill r cost filled levels).1 ≡ filled ⊕ r)
        ⊎ ((fill r cost filled levels).1 ≡ sum_from filled (map (λ l. l.1) levels))
  unfolding fill sum_from
  fill_all r cost filled [] h = inr refl
  fill_all r cost filled ((p, s) ∷ levels) h =
      let t = min r s in
      let nonneg : IsNonneg (r ⊖ t) = rounded.sub_nonneg r t (min_not_above_left ordered r s) in
      let ih = fill_all (r ⊖ t) (cost ⊕ t ⊗ p) (filled ⊕ t) levels nonneg in
      elim (Bool-cases ((r ⊖ t) ≤? nought)) [
        | inl e ↦
            let zero_rest = rest_nought (r ⊖ t) nonneg e in
            inl (
              rw e (
                sym (add_nought (filled ⊕ t))
                ∙ ap (λ (y : F). filled ⊕ t ⊕ y) (sym zero_rest)
                ∙ move_take filled r t))
        | inr e ↦ elim ih [
          | inl whole ↦ inl (rw e (whole ∙ move_take filled r t))
          | inr depth ↦ inr (
              rw e (
                depth
                ∙ ap (λ (y : F). sum_from (filled ⊕ y) (map (λ l. l.1) levels)) (take_level r s e)))
        ]
      ]

  vwap_filled_not_above :
      (st : BookState F) (side : Side) (size : F)
      → IsNonneg size
      → size <? (vwap_fill_price st side size).1 ≡ false
  unfolding vwap_fill_price
  vwap_filled_not_above st side size h =
      let levels = if is_buy side then st.asks else st.bids in
      let filled = (fill size nought nought levels).1 in
      let (rest, nonneg, sum) = fill_rest size nought nought levels h in
      elim (Bool-cases (filled ≤? nought)) [
        | inl e ↦ rw e h
        | inr e ↦ rw e (rw (sum ∙ nought_add size) at (rounded.add_not_below filled rest nonneg))
      ]

  -- Sizes that are not negative only add to a sum.
  sum_more :
      (x : F) (sizes : List F)
      → All IsNonneg sizes
      → (rest : F) × (IsNonneg rest) × (x ⊕ rest ≡ sum_from x sizes)
  unfolding sum_from
  sum_more x [] h = (nought, ordered.lt_irrefl nought, add_nought x)
  sum_more x (s ∷ sizes) (h, hs) =
      let (rest, nonneg, sum) = sum_more (x ⊕ s) sizes hs in
      (s ⊕ rest, rounded.add_nonneg s rest h nonneg, sym (add_assoc x s rest) ∙ sum)

  -- What is filled and some rest that is not negative make up the depth.
  fill_depth :
      (r cost filled : F) (levels : List (Level F))
      → IsNonneg r
      → All (λ l. IsNonneg l.1) levels
      → (rest : F) × (IsNonneg rest)
        × ((fill r cost filled levels).1 ⊕ rest ≡ sum_from filled (map (λ l. l.1) levels))
  unfolding fill sum_from
  fill_depth r cost filled [] h ls = (nought, ordered.lt_irrefl nought, add_nought filled)
  fill_depth r cost filled ((p, s) ∷ levels) h (l, ls) =
      let t = min r s in
      let nonneg : IsNonneg (r ⊖ t) = rounded.sub_nonneg r t (min_not_above_left ordered r s) in
      elim (Bool-cases ((r ⊖ t) ≤? nought)) [
        | inl e ↦
            let (more, more_nonneg, sum) =
              sum_more (filled ⊕ s) (map (λ l. l.1) levels) (sizes_nonneg levels ls) in
            let left_nonneg : IsNonneg (s ⊖ t) =
              rounded.sub_nonneg s t (min_not_above_right ordered r s) in
            (
              (s ⊖ t) ⊕ more,
              rounded.add_nonneg (s ⊖ t) more left_nonneg more_nonneg,
              rw e (
                  sym (add_assoc (filled ⊕ t) (s ⊖ t) more)
                  ∙ ap (λ (y : F). y ⊕ more) (move_take filled s t)
                  ∙ sum),
            )
        | inr e ↦
            let (rest, rest_nonneg, sum) =
              fill_depth (r ⊖ t) (cost ⊕ t ⊗ p) (filled ⊕ t) levels nonneg ls in
            (
              rest,
              rest_nonneg,
              rw e (
                  sum
                  ∙ ap (λ (y : F). sum_from (filled ⊕ y) (map (λ l. l.1) levels))
                      (take_level r s e)),
            )
      ]
    where
      sizes_nonneg :
          (levels : List (Level F))
          → All (λ l. IsNonneg l.1) levels
          → All IsNonneg (map (λ l. l.1) levels)
      sizes_nonneg [] h = tt
      sizes_nonneg (l ∷ levels) (h, hs) = (h, sizes_nonneg levels hs)

  -- The loop only adds to what is filled.
  fill-IsNonneg :
      (r cost filled : F) (levels : List (Level F))
      → IsNonneg r
      → All (λ l. IsNonneg l.1) levels
      → IsNonneg filled
      → IsNonneg ((fill r cost filled levels).1)
  unfolding fill
  fill-IsNonneg r cost filled [] h ls k = k
  fill-IsNonneg r cost filled ((p, s) ∷ levels) h (l, ls) k =
      let t = min r s in
      let nonneg : IsNonneg (r ⊖ t) = rounded.sub_nonneg r t (min_not_above_left ordered r s) in
      let taken = rounded.add_nonneg filled t k (min-IsNonneg ordered r s h l) in
      elim (Bool-cases ((r ⊖ t) ≤? nought)) [
        | inl e ↦ rw e taken
        | inr e ↦ rw e (fill-IsNonneg (r ⊖ t) (cost ⊕ t ⊗ p) (filled ⊕ t) levels nonneg ls taken)
      ]

  -- The answer is the size that the loop fills: where that is not positive it is zero anyway.
  vwap_filled :
      (st : BookState F) (side : Side) (size : F)
      → IsNonneg size
      → let levels = if is_buy side then st.asks else st.bids in
        All (λ l. IsNonneg l.1) levels
        → (vwap_fill_price st side size).1 ≡ (fill size nought nought levels).1
  unfolding vwap_fill_price
  vwap_filled st side size h ls =
      let levels = if is_buy side then st.asks else st.bids in
      let filled = (fill size nought nought levels).1 in
      elim (Bool-cases (filled ≤? nought)) [
        | inr e ↦ rw e refl
        | inl e ↦ rw e (
            sym (
              rest_nought filled
                (fill-IsNonneg size nought nought levels h ls (ordered.lt_irrefl nought)) e))
      ]

  -- Where sums are exact, for a size that is not negative and levels whose sizes are not, the filled size
  -- is the smaller of the size asked for and the whole depth of the side: it is one of the two, and above
  -- neither.
  pub vwap_fills_min :
      (st : BookState F) (side : Side) (size : F)
      → let levels = if is_buy side then st.asks else st.bids in
        let depth = sum_from nought (map (λ l. l.1) levels) in
        let filled = (vwap_fill_price st side size).1 in
        IsNonneg size
        → All (λ l. IsNonneg l.1) levels
        → (size <? filled ≡ false)
          × (depth <? filled ≡ false)
          × ((filled ≡ size) ⊎ (filled ≡ depth))
  vwap_fills_min st side size h ls =
      let levels = if is_buy side then st.asks else st.bids in
      let filled = (fill size nought nought levels).1 in
      let (rest, nonneg, sum) = fill_depth size nought nought levels h ls in
      rw (vwap_filled st side size h ls) (
        rw (vwap_filled st side size h ls) at (vwap_filled_not_above st side size h),
        rw sum at (rounded.add_not_below filled rest nonneg),
        elim (fill_all size nought nought levels h) [
          | inl whole ↦ inl (whole ∙ nought_add size)
          | inr depth ↦ inr depth
        ],
      )
