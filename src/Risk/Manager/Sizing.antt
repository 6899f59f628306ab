-- ===== src/Risk/Manager/Sizing.antt =====
-- `size_with_depth_check` and `reverify_profitability`.
use crypto_arb_engine.Prelude.{
  Bool, false, Option, none, some, List, [], ◌∷◌, ◌||◌, if◌then◌else◌, find?, all, not, or_default,
}
use crypto_arb_engine.Float.{Float, ◌⊕◌, ◌⊖◌, ◌⊗◌, ◌⊘◌, ◌<?◌, ◌≤?◌, nought, min, hundred}
use crypto_arb_engine.Core.Types.{Side, is_buy, Leg, Opportunity}
use crypto_arb_engine.Core.Book.{BookStore, OrderBook, find_book, vwap_fill_price}
use crypto_arb_engine.Config.Venues.{Venues, min_order_usd_for}
use crypto_arb_engine.Risk.Manager.Defs.{RiskManager}

module _ {F : Type 0} ⦃f : Float F⦄ where
  -- `next((leg for leg in legs if leg.side == "buy"), legs[0])`, for legs that begin with `first`.
  unfoldable pub buy_leg : Leg F → List (Leg F) → Leg F
  buy_leg first legs = or_default first (find? (λ l. is_buy l.side) legs)

  -- `_clears_venue_minimums`
  unfoldable pub clears_venue_minimums : Venues F → Opportunity F → F → Bool
  clears_venue_minimums t o size_usd =
      all (λ leg. not (size_usd <? min_order_usd_for t leg.venue_id)) o.legs

  -- The last test of the sizing: a size below a minimum counts as zero.
  unfoldable pub if_clears : Venues F → Opportunity F → F → F
  if_clears t o size_usd = if clears_venue_minimums t o size_usd then size_usd else nought

  -- The size that the book's depth allows, for a buy leg of a positive price.
  unfoldable pub depth_size : Venues F → Opportunity F → F → Leg F → F → Option (OrderBook F) → F
  depth_size t o max_slippage_pct leg proposed_usd none = if_clears t o proposed_usd
  depth_size t o max_slippage_pct leg proposed_usd (some book) =
      let (vwap_price, filled_size) =
        vwap_fill_price book.state Side.buy (proposed_usd ⊘ leg.price) in
      if filled_size ≤? nought || vwap_price ≤? nought
      then nought
      else (if max_slippage_pct <? (vwap_price ⊖ leg.price) ⊘ leg.price ⊗ hundred
          then nought
          else if_clears t o (min proposed_usd (filled_size ⊗ vwap_price)))

  unfoldable pub size_of_legs :
      Venues F → RiskManager F → Opportunity F → BookStore F → F → List (Leg F) → F
  size_of_legs t rm o book_store max_slippage_pct [] = nought
  size_of_legs t rm o book_store max_slippage_pct (first ∷ rest) =
      let leg = buy_leg first (first ∷ rest) in
      let proposed_usd = min o.max_size_usd rm.limits.max_notional_per_trade_usd in
      if leg.price ≤? nought
      then nought
      else depth_size t o max_slippage_pct leg proposed_usd
          (find_book book_store leg.venue_id leg.symbol)

  unfoldable pub size_with_depth_check :
      Venues F → RiskManager F → Opportunity F → BookStore F → F → F
  unfolding size_of_legs depth_size if_clears buy_leg
  size_with_depth_check t rm o book_store max_slippage_pct =
      size_of_legs t rm o book_store max_slippage_pct o.legs

  -- The price and the size that one leg gets now.
  unfoldable pub leg_fill : BookStore F → Leg F → F → F × F
  leg_fill book_store leg leg_size = elim (find_book book_store leg.venue_id leg.symbol) [
    | none ↦ (leg.price, leg_size)
    | some book ↦ vwap_fill_price book.state leg.side leg_size
  ]

  -- The loop over the legs: cost and proceeds, or `none` for a leg that does not fill.
  unfoldable pub walk_legs : BookStore F → F → (cost proceeds : F) → List (Leg F) → Option (F × F)
  walk_legs book_store scale cost proceeds [] = some (cost, proceeds)
  walk_legs book_store scale cost proceeds (leg ∷ legs) =
      let (price, filled) = leg_fill book_store leg (leg.size ⊗ scale) in
      let notional = price ⊗ filled in
      let fee_amount = notional ⊗ leg.fee in
      let cost' = if is_buy leg.side then cost ⊕ (notional ⊕ fee_amount) else cost in
      let proceeds' = if is_buy leg.side then proceeds else proceeds ⊕ (notional ⊖ fee_amount) in
      let rest = walk_legs book_store scale cost' proceeds' legs in
      if filled ≤? nought || price ≤? nought then none else rest

  -- The net profit in percent, with the test of the cost.
  unfoldable pub verdict : Option (F × F) → Bool × F
  verdict none = (false, nought)
  verdict (some (cost, proceeds)) =
      if cost ≤? nought
      then (false, nought)
      else (let net_profit_pct = (proceeds ⊖ cost) ⊘ cost ⊗ hundred in
          (nought <? net_profit_pct, net_profit_pct))

  unfoldable pub reverify_legs : BookStore F → F → List (Leg F) → Bool × F
  reverify_legs book_store size_usd [] = (false, nought)
  reverify_legs book_store size_usd (first ∷ rest) =
      let leg = buy_leg first (first ∷ rest) in
      if size_usd ≤? nought
      then (false, nought)
      else (if leg.price ≤? nought || leg.size ≤? nought
          then (false, nought)
          else verdict
              (walk_legs book_store (size_usd ⊘ leg.price ⊘ leg.size) nought nought (first ∷ rest)))

  unfoldable pub reverify_profitability : Opportunity F → BookStore F → F → Bool × F
  unfolding reverify_legs verdict walk_legs leg_fill buy_leg
  reverify_profitability o book_store size_usd = reverify_legs book_store size_usd o.legs
