-- ===== src/Strategies/Futures/FundingRate.antt =====
-- strategies/funding_rate.py: `FundingRateStrategy`.
use Prim.Native.String.{◌++◌ as text_append}
use crypto_arb_engine.Prelude.{Option, none, some, List, [], ◌∷◌, String, if◌then◌else◌, ◌||◌}
use crypto_arb_engine.Float.{Float, ◌⊕◌, ◌⊖◌, ◌⊗◌, ◌⊘◌, ◌<?◌, ◌≤?◌, nought, min, abs, hundred}
use crypto_arb_engine.Core.Types.{Side, Opportunity, FundingRate, annualized_pct}
use crypto_arb_engine.Core.Book.{BookState, OrderBook, best_bid, best_ask, best_bid_size}
use crypto_arb_engine.Core.Market.{MarketState}
use crypto_arb_engine.Config.Venues.{Venues}
use crypto_arb_engine.Strategies.Pairs.{Settings}
use crypto_arb_engine.Strategies.Shared.{
  concat_map, leg_at, book_or_first, taker_fee_at, is_stale, report, best_first, opposite,
}

module _ {F : Type 0} ⦃f : Float F⦄ where
  -- The perpetual is sold when its funding is positive, and the spot bought, else the reverse.
  abbrev pub perp_side : F → Side
  perp_side annualized = if nought <? annualized then Side.sell else Side.buy

  abbrev pub funding_trade :
      Settings F → Venues F → F → String → String → F → BookState F → List (Opportunity F)
  funding_trade cfg t now venue_id symbol annualized spot =
      let fee = taker_fee_at t venue_id in
      let size_usd = min cfg.max_trade_usd (best_bid_size spot ⊗ best_bid spot) in
      let units = size_usd ⊘ best_bid spot in
      let opp =
        report "funding_rate" symbol
          (leg_at (perp_side annualized) units (record {
            venue_id = venue_id;
            symbol = text_append symbol "-PERP";
            price = (best_bid spot ⊕ best_ask spot) ⊘ f.lit 2 0;
            fee = fee;
          })
            ∷ leg_at (opposite (perp_side annualized)) units
                (record { venue_id = venue_id; symbol = symbol; price = best_bid spot; fee = fee })
            ∷ [])
          (abs annualized) (abs annualized ⊖ fee ⊗ f.lit 2 0 ⊗ hundred) size_usd now in
      if size_usd ≤? nought then [] else opp ∷ []

  unfoldable pub funding_at :
      Settings F
      → Venues F
      → F
      → MarketState F
      → String
      → String
      → F
      → Option (OrderBook F)
      → List (Opportunity F)
  unfolding is_stale
  funding_at cfg t now m venue_id symbol annualized none = []
  funding_at cfg t now m venue_id symbol annualized (some book) =
      if is_stale now m book.state || best_bid book.state ≤? nought
      then []
      else funding_trade cfg t now venue_id symbol annualized book.state

  unfoldable pub funding_of :
      Settings F
      → Venues F
      → F
      → MarketState F
      → (String × String) × FundingRate F
      → List (Opportunity F)
  unfolding funding_at book_or_first
  funding_of cfg t now m ((venue_id, symbol), funding) =
      let annualized = annualized_pct funding in
      if abs annualized <? cfg.min_profit_pct
      then []
      else funding_at cfg t now m venue_id symbol annualized
          (book_or_first m.book_store venue_id symbol symbol)

  unfoldable pub funding_rate_scan :
      Settings F → Venues F → F → MarketState F → List (Opportunity F)
  unfolding funding_of
  funding_rate_scan cfg t now m = best_first (concat_map (funding_of cfg t now m) m.funding_rates)
