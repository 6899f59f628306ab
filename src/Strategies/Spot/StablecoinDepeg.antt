-- ===== src/Strategies/Spot/StablecoinDepeg.antt =====
-- strategies/stablecoin_depeg.py: `StablecoinDepegStrategy`.
use crypto_arb_engine.Prelude.{
  Option, none, some, List, [], ◌∷◌, ◌++◌, map, filter, is_some, String, if◌then◌else◌, ◌&&◌, ◌||◌,
}
use crypto_arb_engine.Prelude.Text.{partition_slash}
use crypto_arb_engine.Float.{Float, ◌⊕◌, ◌⊖◌, ◌⊗◌, ◌⊘◌, ◌<?◌, ◌≤?◌, nought, min, abs, hundred}
use crypto_arb_engine.Core.Types.{Side, Opportunity}
use crypto_arb_engine.Core.Book.{
  BookState, OrderBook, BookStore, find_book, all_symbols, all_venues, best_bid, best_ask,
  best_bid_size,
}
use crypto_arb_engine.Core.Graph.{member}
use crypto_arb_engine.Core.Market.{MarketState, PoolState}
use crypto_arb_engine.Config.Venues.{Venues}
use crypto_arb_engine.Config.Universe.{stablecoins, TieredSymbol, build_stable_pairs}
use crypto_arb_engine.Strategies.Shared.{leg_at, taker_fee_at, is_stale, report, best_first}

-- The thresholds in percent, and the cap of a trade.
pub record DepegSettings (F : Type 0) : Type 0 where
  pub min_profit_pct : F
  pub kill_switch_pct : F
  pub max_trade_usd : F

-- What a scan changes: `triggered_kill_switches`, and the opportunities found so far.
pub record Depegs (F : Type 0) : Type 0 where
  pub triggered : List String
  pub found : List (Opportunity F)

-- `set.add`
abbrev pub add_to : String → List String → List String
add_to x xs = if member x xs then xs else xs ++ (x ∷ [])

module _ {F : Type 0} ⦃f : Float F⦄ where
  -- What is done with a deviation from the peg: `offers` is what it would be traded as.
  unfoldable pub on_deviation :
      DepegSettings F → String → F → List (Opportunity F) → Depegs F → Depegs F
  on_deviation cfg symbol deviation_pct offers d =
      if cfg.kill_switch_pct ≤? abs deviation_pct
      then record d { triggered = add_to symbol d.triggered }
      else (if abs deviation_pct <? cfg.min_profit_pct
          then d
          else record d { found = d.found ++ offers })

  abbrev pub side_of : F → Side
  side_of deviation_pct = if nought <? deviation_pct then Side.sell else Side.buy

  -- One leg against the peg.
  abbrev pub depeg_offer :
      (symbol venue_id : String)
      → (deviation_pct price fee divisor size_usd now : F) → Opportunity F
  depeg_offer symbol venue_id deviation_pct price fee divisor size_usd now =
      report "stablecoin_depeg" symbol
        (leg_at (side_of deviation_pct) (size_usd ⊘ divisor)
            (record { venue_id = venue_id; symbol = symbol; price = price; fee = fee })
          ∷ [])
        (abs deviation_pct) (abs deviation_pct ⊖ fee ⊗ hundred) size_usd now

  abbrev pub book_price : F → BookState F → F
  book_price deviation_pct st = if nought <? deviation_pct then best_bid st else best_ask st

  unfoldable pub book_offers :
      DepegSettings F
      → Venues F
      → (now : F) → (venue_id symbol : String) → F
      → BookState F
      → List (Opportunity F)
  book_offers cfg t now venue_id symbol deviation_pct st =
      let price = book_price deviation_pct st in
      let size_usd = min cfg.max_trade_usd (best_bid_size st ⊗ best_bid st) in
      if size_usd ≤? nought
      then []
      else depeg_offer symbol venue_id deviation_pct price (taker_fee_at t venue_id) price size_usd
          now
        ∷ []

  -- One pair on one venue.
  unfoldable pub scan_book :
      DepegSettings F
      → Venues F
      → F
      → MarketState F
      → String
      → String
      → Option (OrderBook F)
      → Depegs F
      → Depegs F
  unfolding is_stale on_deviation book_offers
  scan_book cfg t now m venue_id symbol none d = d
  scan_book cfg t now m venue_id symbol (some book) d =
      let st = book.state in
      let mid = (best_bid st ⊕ best_ask st) ⊘ f.lit 2 0 in
      let deviation_pct = (mid ⊖ f.lit 1 0) ⊗ hundred in
      if is_stale now m st || best_bid st ≤? nought
      then d
      else on_deviation cfg symbol deviation_pct
          (book_offers cfg t now venue_id symbol deviation_pct st) d

  unfoldable pub scan_pairs :
      DepegSettings F
      → Venues F
      → F
      → MarketState F
      → String
      → List TieredSymbol
      → Depegs F
      → Depegs F
  unfolding scan_book
  scan_pairs cfg t now m venue_id [] d = d
  scan_pairs cfg t now m venue_id (pair ∷ pairs) d =
      scan_pairs cfg t now m venue_id pairs
        (scan_book cfg t now m venue_id pair.symbol (find_book m.book_store venue_id pair.symbol) d)

  -- The symbols that a venue lists.
  abbrev pub listed_on : BookStore F → String → List String
  listed_on store venue_id = filter (λ s. is_some (find_book store venue_id s)) (all_symbols store)

  unfoldable pub scan_cex_pairs :
      DepegSettings F → Venues F → F → MarketState F → List String → Depegs F → Depegs F
  unfolding scan_pairs
  scan_cex_pairs cfg t now m [] d = d
  scan_cex_pairs cfg t now m (venue_id ∷ venues) d =
      scan_cex_pairs cfg t now m venues
        (scan_pairs cfg t now m venue_id (build_stable_pairs (listed_on m.book_store venue_id)) d)

  -- `max(price, 1e-9)`
  abbrev pub not_below : F → F → F
  not_below low x = if x <? low then low else x

  unfoldable pub scan_pool : DepegSettings F → F → PoolState F → Depegs F → Depegs F
  unfolding on_deviation
  scan_pool cfg now pool d =
      let (base, quote) = partition_slash pool.symbol in
      let price = pool.reserve_quote ⊘ pool.reserve_base in
      let deviation_pct = (price ⊖ f.lit 1 0) ⊗ hundred in
      let size_usd = min cfg.max_trade_usd (pool.reserve_base ⊗ f.lit 1 3) in
      let offer =
        depeg_offer pool.symbol pool.dex_id deviation_pct price pool.fee
          (not_below (f.lit 1 9) price) size_usd now in
      if member base stablecoins && member quote stablecoins
      then (if pool.reserve_base ≤? nought
          then d
          else on_deviation cfg pool.symbol deviation_pct (offer ∷ []) d)
      else d

  unfoldable pub scan_dex_pools : DepegSettings F → F → List (PoolState F) → Depegs F → Depegs F
  unfolding scan_pool
  scan_dex_pools cfg now [] d = d
  scan_dex_pools cfg now (pool ∷ pools) d = scan_dex_pools cfg now pools (scan_pool cfg now pool d)

  abbrev pub no_depegs : Depegs F
  no_depegs = record { triggered = []; found = [] }

  abbrev pub pools_of : MarketState F → List (PoolState F)
  pools_of m = map (λ p. p.1) m.dex_pools

  -- A scan starts with no kill switch triggered; the pairs are scanned first.
  unfoldable pub depeg_scan : DepegSettings F → Venues F → F → MarketState F → Depegs F
  unfolding scan_cex_pairs scan_dex_pools
  depeg_scan cfg t now m =
      let listed = scan_cex_pairs cfg t now m (all_venues m.book_store) no_depegs in
      let d = scan_dex_pools cfg now (pools_of m) listed in record d { found = best_first d.found }
