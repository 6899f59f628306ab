-- ===== src/Strategies/Spot/WrappedAsset.antt =====
-- strategies/wrapped_asset.py: `WrappedAssetStrategy`. The table REDEMPTION_INFO is an argument.

use crypto_arb_engine.Prelude.{
  Bool, not, Option, none, some, List, [], ◌∷◌, String, if◌then◌else◌, ◌||◌,
}
use crypto_arb_engine.Prelude.Dict.{Dict, string_key, lookup}
use crypto_arb_engine.Float.{Float, ◌⊕◌, ◌⊖◌, ◌⊗◌, ◌⊘◌, ◌<?◌, ◌≤?◌, nought, min, abs, hundred}
use crypto_arb_engine.Core.Types.{Side, Opportunity}
use crypto_arb_engine.Core.Book.{
  BookState, OrderBook, find_book, venues_for_symbol, best_bid, best_ask, best_bid_size,
  best_ask_size,
}
use crypto_arb_engine.Core.Market.{MarketState}
use crypto_arb_engine.Config.Venues.{Venues}
use crypto_arb_engine.Config.Universe.{wrapped_underlying, symbol_of}
use crypto_arb_engine.Strategies.Shared.{
  concat_map, leg_at, book_or_first, taker_fee_at, is_stale, report, best_first, opposite,
}

pub record RedemptionInfo (F : Type 0) : Type 0 where
  pub instant : Bool
  pub latency_sec : F
  pub currently_open : Bool

module _ {F : Type 0} ⦃f : Float F⦄ where
  unfoldable pub fair_deviation_band_pct : RedemptionInfo F → F
  fair_deviation_band_pct info =
      let days = info.latency_sec ⊘ f.lit 86400 0 in
      if info.instant then f.lit 1 1 else f.lit 1 1 ⊕ f.lit 15 2 ⊗ days

  abbrev pub deviation_of : BookState F → BookState F → F
  deviation_of w u = (best_bid w ⊖ best_ask u) ⊘ best_ask u ⊗ hundred

  abbrev pub wrapped_net : RedemptionInfo F → F → BookState F → BookState F → F
  wrapped_net info fee w u =
      abs (deviation_of w u) ⊖ fair_deviation_band_pct info ⊖ fee ⊗ f.lit 2 0 ⊗ hundred

  -- The wrapped asset is sold, and what it wraps is bought, when it trades above it; else the reverse.
  abbrev pub wrapped_trade :
      (max_trade_usd now : F)
      → (name venue_id wrapped_symbol underlying_symbol : String) → (net fee : F) → BookState F
      → BookState F
      → List (Opportunity F)
  wrapped_trade max_trade_usd now name venue_id wrapped_symbol underlying_symbol net fee w u =
      let size_usd = min (min (best_bid_size w) (best_ask_size u) ⊗ best_ask u) max_trade_usd in
      let units = size_usd ⊘ best_ask u in
      let rich = nought <? deviation_of w u in
      let side = if rich then Side.sell else Side.buy in
      let opp =
        report "wrapped_asset" name
          (leg_at side units (record {
            venue_id = venue_id;
            symbol = wrapped_symbol;
            price = if rich then best_bid w else best_ask w;
            fee = fee;
          })
            ∷ leg_at (opposite side) units (record {
              venue_id = venue_id;
              symbol = underlying_symbol;
              price = if rich then best_ask u else best_bid u;
              fee = fee;
            })
            ∷ [])
          (abs (deviation_of w u)) net size_usd now in
      if net <? nought then [] else (if size_usd ≤? nought then [] else opp ∷ [])

  unfoldable pub wrapped_at :
      (max_trade_usd : F)
      → Venues F
      → (now : F) → MarketState F
      → (name wrapped_symbol underlying_symbol : String) → RedemptionInfo F
      → String
      → Option (OrderBook F)
      → Option (OrderBook F)
      → List (Opportunity F)
  unfolding is_stale fair_deviation_band_pct
  wrapped_at max_trade_usd t now m name wrapped_symbol underlying_symbol info venue_id none u = []
  wrapped_at max_trade_usd t now m name wrapped_symbol underlying_symbol info venue_id (some w)
        none =
      []
  wrapped_at max_trade_usd t now m name wrapped_symbol underlying_symbol info venue_id (some w)
        (some u) =
      let fee = taker_fee_at t venue_id in
      if is_stale now m w.state || is_stale now m u.state
      then []
      else (if best_bid w.state ≤? nought || best_ask u.state ≤? nought
          then []
          else wrapped_trade max_trade_usd now name venue_id wrapped_symbol underlying_symbol
              (wrapped_net info fee w.state u.state) fee w.state u.state)

  -- `_scan_pair`
  unfoldable pub wrapped_pair :
      (max_trade_usd : F)
      → Venues F
      → (now : F) → MarketState F
      → (wrapped underlying quote : String) → RedemptionInfo F
      → List (Opportunity F)
  unfolding wrapped_at book_or_first
  wrapped_pair max_trade_usd t now m wrapped underlying quote info =
      let wrapped_symbol = symbol_of wrapped quote in
      let underlying_symbol = symbol_of underlying quote in
      concat_map
        (λ venue_id.
          wrapped_at max_trade_usd t now m (symbol_of wrapped underlying) wrapped_symbol
            underlying_symbol info venue_id (find_book m.book_store venue_id wrapped_symbol)
            (book_or_first m.book_store venue_id underlying_symbol underlying_symbol))
        (venues_for_symbol m.book_store wrapped_symbol)

  unfoldable pub wrapped_asset :
      (max_trade_usd : F)
      → Venues F
      → (now : F) → MarketState F
      → Option (RedemptionInfo F)
      → String × String
      → List (Opportunity F)
  unfolding wrapped_pair
  wrapped_asset max_trade_usd t now m none (wrapped, underlying) = []
  wrapped_asset max_trade_usd t now m (some info) (wrapped, underlying) =
      if not info.currently_open
      then []
      else concat_map (λ quote. wrapped_pair max_trade_usd t now m wrapped underlying quote info)
          ("USDT" ∷ "USDC" ∷ [])

  unfoldable pub wrapped_asset_scan :
      Dict String (RedemptionInfo F)
      → (max_trade_usd : F) → Venues F
      → (now : F) → MarketState F
      → List (Opportunity F)
  unfolding wrapped_asset
  wrapped_asset_scan redemption max_trade_usd t now m = best_first (
      concat_map (λ p. wrapped_asset max_trade_usd t now m (lookup p.0 redemption) p)
        wrapped_underlying)
