-- ===== src/Strategies/Pools/CexDex.antt =====
-- strategies/cex_dex.py: `CexDexStrategy`. The texts of `detail` are left out.
use Prim.Native.String.{◌++◌ as text_append}
use crypto_arb_engine.Prelude.{
  not, Option, none, some, List, [], ◌∷◌, ◌++◌, String, if◌then◌else◌, ◌&&◌, ◌||◌,
}
use crypto_arb_engine.Prelude.Dict.{string_key, get}
use crypto_arb_engine.Prelude.Text.{partition_slash}
use crypto_arb_engine.Float.{Float, ◌⊕◌, ◌⊖◌, ◌⊗◌, ◌⊘◌, ◌<?◌, ◌≤?◌, ◌==?◌, nought, hundred}
use crypto_arb_engine.Core.Types.{Side, Opportunity}
use crypto_arb_engine.Core.Book.{OrderBook, find_book, all_venues, best_bid, best_ask}
use crypto_arb_engine.Core.Market.{MarketState, PoolState}
use crypto_arb_engine.Config.Venues.{Venues}
use crypto_arb_engine.Strategies.Shared.{
  concat_map, Market, leg_at, taker_fee_at, is_stale, report, best_first,
}
use crypto_arb_engine.Strategies.Pools.Amm.{quote_pool_input_for_base_out}
use crypto_arb_engine.Strategies.Pools.DexDex.{PoolSettings, spot_price}

module _ {F : Type 0} ⦃f : Float F⦄ where
  -- What one unit costs at the pool, 0 where the pool cannot be priced.
  unfoldable pub dex_price : F → PoolState F → F
  dex_price size pool =
      let quote_in = quote_pool_input_for_base_out pool size in
      if not (size ==? nought) && not (quote_in ==? f.inf) then quote_in ⊘ size else nought

  -- The net profit in percent of what is paid.
  unfoldable pub net_on_cost : (gross_usd costs_usd cost : F) → F
  net_on_cost gross_usd costs_usd cost =
      if cost ==? nought then f.neg hundred else (gross_usd ⊖ costs_usd) ⊘ cost ⊗ hundred

  -- `_build_opportunity`, between a market where it buys and one where it sells.
  unfoldable pub build_opportunity :
      F → PoolState F → F → (buy sell : Market F) → (gross net : F) → Opportunity F
  build_opportunity now pool size buy sell gross net =
      report "cex_dex" pool.symbol (leg_at Side.buy size buy ∷ leg_at Side.sell size sell ∷ [])
        gross net (size ⊗ buy.price) now

  abbrev pub market_at : String → PoolState F → (price fee : F) → Market F
  market_at venue_id pool price fee = record {
    venue_id = venue_id;
    symbol = text_append ((partition_slash pool.symbol).0) "/USD";
    price = price;
    fee = fee;
  }

  -- Bought from the pool, sold at the bid. `extra` is the gas, then the priority fee.
  unfoldable pub dex_to_cex :
      PoolSettings F
      → F
      → PoolState F
      → String
      → (cex_bid cex_fee gas_usd priority_fee_usd : F) → List (Opportunity F)
  unfolding net_on_cost build_opportunity dex_price
  dex_to_cex cfg now pool venue_id cex_bid cex_fee gas_usd priority_fee_usd =
      let size = cfg.probe_size_base in
      let price = dex_price size pool in
      let costs = cex_bid ⊗ size ⊗ cex_fee ⊕ gas_usd ⊕ priority_fee_usd in
      let net = net_on_cost ((cex_bid ⊖ price) ⊗ size) costs (price ⊗ size) in
      let opp =
        build_opportunity now pool size (market_at pool.dex_id pool price pool.fee)
          (market_at venue_id pool cex_bid cex_fee) ((cex_bid ⊖ price) ⊘ price ⊗ hundred) net in
      if nought <? price then (if cfg.min_profit_pct ≤? net then opp ∷ [] else []) else []

  -- Bought at the ask, sold to the pool at its spot ratio.
  unfoldable pub cex_to_dex :
      PoolSettings F
      → F
      → PoolState F
      → String
      → (cex_ask cex_fee gas_usd priority_fee_usd : F) → List (Opportunity F)
  unfolding net_on_cost build_opportunity spot_price
  cex_to_dex cfg now pool venue_id cex_ask cex_fee gas_usd priority_fee_usd =
      let size = cfg.probe_size_base in
      let price = spot_price pool in
      let costs = cex_ask ⊗ size ⊗ cex_fee ⊕ price ⊗ size ⊗ pool.fee ⊕ gas_usd ⊕ priority_fee_usd in
      let net = net_on_cost ((price ⊖ cex_ask) ⊗ size) costs (cex_ask ⊗ size) in
      let opp =
        build_opportunity now pool size (market_at venue_id pool cex_ask cex_fee)
          (market_at pool.dex_id pool price pool.fee) ((price ⊖ cex_ask) ⊘ cex_ask ⊗ hundred) net in
      if nought <? price && nought <? cex_ask
      then (if cfg.min_profit_pct ≤? net then opp ∷ [] else [])
      else []

  -- One venue's book against the pool; gas is 5 where the chain has no price, the priority fee is
  -- MEV_PRIORITY_FEE_USD_FALLBACK.
  unfoldable pub against_pool :
      PoolSettings F
      → Venues F
      → F
      → MarketState F
      → PoolState F
      → String
      → Option (OrderBook F)
      → List (Opportunity F)
  unfolding is_stale dex_to_cex cex_to_dex
  against_pool cfg t now m pool venue_id none = []
  against_pool cfg t now m pool venue_id (some book) =
      let gas_usd = get (f.lit 5 0) pool.chain m.gas_price_usd in
      let fee = taker_fee_at t venue_id in
      if is_stale now m book.state || best_bid book.state ≤? nought
      then []
      else dex_to_cex cfg now pool venue_id (best_bid book.state) fee gas_usd (f.lit 2 0)
        ++ cex_to_dex cfg now pool venue_id (best_ask book.state) fee gas_usd (f.lit 2 0)

  unfoldable pub cex_dex_scan : PoolSettings F → Venues F → F → MarketState F → List (Opportunity F)
  unfolding against_pool
  cex_dex_scan cfg t now m = best_first (
      concat_map
        (λ e.
          concat_map (λ v. against_pool cfg t now m e.1 v (find_book m.book_store v e.1.symbol))
            (all_venues m.book_store))
        m.dex_pools)
