-- ===== src/Strategies/Futures/PerpPerp.antt =====
-- strategies/perp_perp.py: `PerpPerpStrategy`: the grid of the venue pairs, over the perpetuals' symbols.
-- The funding differential stands only in `detail`, which is left out.
use crypto_arb_engine.Prelude.{List, filter, is_some}
use crypto_arb_engine.Prelude.Text.{strip_suffix}
use crypto_arb_engine.Float.{Float}
use crypto_arb_engine.Core.Types.{Opportunity}
use crypto_arb_engine.Core.Book.{BookStore, all_symbols}
use crypto_arb_engine.Core.Market.{MarketState}
use crypto_arb_engine.Config.Venues.{Venues}
use crypto_arb_engine.Strategies.Pairs.{Settings, Detector, cross_exchange_gate, scan_symbols}
use crypto_arb_engine.Strategies.Shared.{best_first}
use Prim.Native.String.{String}

-- The symbols that end in "-PERP".
abbrev pub perp_symbols : {F : Type 0} → BookStore F → List String
perp_symbols store = filter (λ s. is_some (strip_suffix "-PERP" s)) (all_symbols store)

module _ {F : Type 0} ⦃f : Float F⦄ where
  abbrev pub perp_perp : Settings F → Detector F
  perp_perp cfg = record { name = "perp_perp"; settings = cfg; gate = cross_exchange_gate cfg }

  unfoldable pub perp_perp_scan :
      Settings F → Venues F → F → MarketState F → MarketState F × List (Opportunity F)
  unfolding scan_symbols
  perp_perp_scan cfg t now m =
      let (m', found) = scan_symbols (perp_perp cfg) t now (perp_symbols m.book_store) m in
      (m', best_first found)
