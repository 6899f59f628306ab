-- ===== src/Risk/Manager/Sized.antt =====
-- The size that the depth check allows.
use crypto_arb_engine.Prelude.{
  ◌≡◌, refl, ◌⊎◌, inl, inr, true, false, not, ◌||◌, Option, none, some, List, [], ◌∷◌, arith, All,
  all_iff, All-imp, Bool-cases,
}
use crypto_arb_engine.Float.{
  Float, ◌⊖◌, ◌⊗◌, ◌⊘◌, ◌<?◌, ◌≤?◌, nought, min, hundred, IsNonneg, IsOrdered,
}
use crypto_arb_engine.Float.Bounds.{min_not_above_left, min_not_above_right, min_not_above}
use crypto_arb_engine.Core.Types.{Side, Leg, Opportunity}
use crypto_arb_engine.Core.Book.{BookStore, OrderBook, find_book, vwap_fill_price}
use crypto_arb_engine.Config.Venues.{Venues, min_order_usd_for}
use crypto_arb_engine.Risk.Manager.Defs.{RiskManager}
use crypto_arb_engine.Risk.Manager.Sizing.{
  buy_leg, clears_venue_minimums, if_clears, depth_size, size_of_legs, size_with_depth_check,
}

module _ {F : Type 0} ⦃f : Float F⦄ where
  -- No leg's venue would refuse an order of this size.
  abbrev pub MeetsMinimums : Venues F → Opportunity F → F → Type 0
  MeetsMinimums t o size =
      All (λ (l : Leg F). size <? min_order_usd_for t l.venue_id ≡ false) o.legs

  pub clears_iff :
      (t : Venues F) (o : Opportunity F) (size : F)
      → clears_venue_minimums t o size ≡ true
      → MeetsMinimums t o size
  unfolding clears_venue_minimums
  clears_iff t o size h =
      All-imp o.legs (λ l e. ground arith)
        ((all_iff (λ leg. not (size <? min_order_usd_for t leg.venue_id)) o.legs).0 h)

  module _ (laws : IsOrdered F) where
    -- What holds of a size that was proposed holds of the size that the depth allows.
    IsSized : Venues F → RiskManager F → Opportunity F → F → Type 0
    IsSized t rm o size =
        (o.max_size_usd <? size ≡ false)
        × (rm.limits.max_notional_per_trade_usd <? size ≡ false)
        × ((size ≡ nought) ⊎ MeetsMinimums t o size)

    nought-IsSized :
        (t : Venues F) (rm : RiskManager F) (o : Opportunity F)
        → IsNonneg o.max_size_usd
        → IsNonneg rm.limits.max_notional_per_trade_usd
        → IsSized t rm o nought
    unfolding IsSized
    nought-IsSized t rm o h k = (h, k, inl refl)

    if_clears-IsSized :
        (t : Venues F) (rm : RiskManager F) (o : Opportunity F) (size : F)
        → IsNonneg o.max_size_usd
        → IsNonneg rm.limits.max_notional_per_trade_usd
        → o.max_size_usd <? size ≡ false
        → rm.limits.max_notional_per_trade_usd <? size ≡ false
        → IsSized t rm o (if_clears t o size)
    unfolding if_clears IsSized
    if_clears-IsSized t rm o size h k a b = elim (Bool-cases (clears_venue_minimums t o size)) [
      | inl e ↦ rw e (a, b, inr (clears_iff t o size e))
      | inr e ↦ rw e (h, k, inl refl)
    ]

    depth_size-IsSized :
        (t : Venues F) (rm : RiskManager F) (o : Opportunity F) (slip : F) (leg : Leg F)
        (book : Option (OrderBook F))
        → IsNonneg o.max_size_usd
        → IsNonneg rm.limits.max_notional_per_trade_usd
        → IsSized t rm o
            (depth_size t o slip leg (min o.max_size_usd rm.limits.max_notional_per_trade_usd) book)
    unfolding depth_size
    depth_size-IsSized t rm o slip leg none h k =
        if_clears-IsSized t rm o _ h k (min_not_above_left laws _ _) (min_not_above_right laws _ _)
    depth_size-IsSized t rm o slip leg (some book) h k =
        let cap = rm.limits.max_notional_per_trade_usd in
        let proposed = min o.max_size_usd cap in
        let fill = vwap_fill_price book.state Side.buy (proposed ⊘ leg.price) in
        let zero_case = nought-IsSized t rm o h k in
        elim (Bool-cases (fill.1 ≤? nought || fill.0 ≤? nought)) [
          | inl e ↦ rw e zero_case
          | inr e ↦ rw e (elim (Bool-cases (slip <? (fill.0 ⊖ leg.price) ⊘ leg.price ⊗ hundred)) [
            | inl s ↦ rw s zero_case
            | inr s ↦ rw s (
                if_clears-IsSized t rm o (min proposed (fill.1 ⊗ fill.0)) h k
                  (min_not_above laws proposed _ _ (min_not_above_left laws _ _))
                  (min_not_above laws proposed _ _ (min_not_above_right laws _ _)))
          ])
        ]

    -- For an opportunity's size and a notional allowed for a trade that are not negative, the size
    -- that the depth check returns exceeds neither, and it is zero or meets the minimum order of
    -- every leg's venue.
    pub size_with_depth_check_bounds :
        (t : Venues F) (rm : RiskManager F) (o : Opportunity F) (store : BookStore F) (slip : F)
        → IsNonneg o.max_size_usd
        → IsNonneg rm.limits.max_notional_per_trade_usd
        → let size = size_with_depth_check t rm o store slip in
          (o.max_size_usd <? size ≡ false)
          × (rm.limits.max_notional_per_trade_usd <? size ≡ false)
          × ((size ≡ nought) ⊎ MeetsMinimums t o size)
    unfolding size_with_depth_check IsSized
    size_with_depth_check_bounds t rm o store slip h k = sized o.legs
      where
        sized : (legs : List (Leg F)) → IsSized t rm o (size_of_legs t rm o store slip legs)
        sized [] = nought-IsSized t rm o h k
        sized (first ∷ rest) =
            let leg = buy_leg first (first ∷ rest) in
            elim (Bool-cases (leg.price ≤? nought)) [
              | inl e ↦ rw (e, size_of_legs) (nought-IsSized t rm o h k)
              | inr e ↦
                  rw (e, size_of_legs)
                    (depth_size-IsSized t rm o slip leg (find_book store leg.venue_id leg.symbol) h
                      k)
            ]
