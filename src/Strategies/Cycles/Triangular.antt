-- ===== src/Strategies/Cycles/Triangular.antt =====
-- strategies/triangular.py: `build_venue_graph` and `TriangularStrategy`. A symbol is taken to have at
-- most one slash, as the code's unpacking of `symbol.split("/")` does. `ln` and `exp` stand for
-- `math.log` and `math.exp`.
use Prim.Native.String.{◌++◌ as text_append}
use crypto_arb_engine.Prelude.{
  Bool, Option, none, some, List, [], ◌∷◌, map, filter, String, if◌then◌else◌, ◌||◌,
}
use crypto_arb_engine.Prelude.Dict.{string_key}
use crypto_arb_engine.Prelude.Text.{split_slash, join}
use crypto_arb_engine.Float.{Float, ◌⊘◌, ◌<?◌, ◌≤?◌, ◌==?◌, nought}
use crypto_arb_engine.Core.Types.{Side, Opportunity}
use crypto_arb_engine.Core.Book.{BookState, OrderBook, find_book, all_venues, best_bid, best_ask}
use crypto_arb_engine.Core.Graph.{Cycle, Graph, nodes, add_edge, find_cycles, profit_pct, member}
use crypto_arb_engine.Core.Market.{MarketState}
use crypto_arb_engine.Config.Venues.{Venues}
use crypto_arb_engine.Strategies.Cycles.{
  CycleSettings, hub_assets, max_expansions, dedupe_by_stops, price_of_edge, cycle_leg,
}
use crypto_arb_engine.Strategies.Shared.{
  concat_map, taker_fee_at, is_stale, report, on_one_venue, best_first,
}

module _ {F : Type 0} ⦃f : Float F⦄ where
  -- Buying the base for the quote at the ask, and selling it at the bid.
  abbrev pub market_edges :
      (source target : String)
      → (fee : F) → (venue_id symbol : String) → BookState F
      → Graph F
      → Graph F
  market_edges source target fee venue_id symbol st g =
      add_edge
        (record {
          src = target;
          dst = source;
          rate = best_bid st;
          fee = fee;
          venue_id = venue_id;
          symbol = symbol;
          side = Side.sell;
        })
        (add_edge
          (record {
            src = source;
            dst = target;
            rate = f.lit 1 0 ⊘ best_ask st;
            fee = fee;
            venue_id = venue_id;
            symbol = symbol;
            side = Side.buy;
          })
          g)

  -- A state that gives no price.
  abbrev pub unpriced : BookState F → Bool
  unpriced st = best_bid st ≤? nought || (best_ask st ≤? nought || best_ask st ==? f.inf)

  unfoldable pub add_market :
      F
      → MarketState F
      → (fee : F) → (venue_id symbol : String) → Option (OrderBook F)
      → Option (String × String)
      → Graph F
      → Graph F
  unfolding is_stale
  add_market now m fee venue_id symbol none parts g = g
  add_market now m fee venue_id symbol (some book) none g = g
  add_market now m fee venue_id symbol (some book) (some (base, quote)) g =
      if is_stale now m book.state
      then g
      else (if unpriced book.state
          then g
          else market_edges quote base fee venue_id symbol book.state g)

  unfoldable pub add_markets :
      F → MarketState F → (fee : F) → String → List String → Graph F → Graph F
  unfolding add_market
  add_markets now m fee venue_id [] g = g
  add_markets now m fee venue_id (symbol ∷ symbols) g = add_markets now m fee venue_id symbols (
      add_market now m fee venue_id symbol (find_book m.book_store venue_id symbol)
        (split_slash symbol) g)

  unfoldable pub build_venue_graph : Venues F → F → MarketState F → String → Graph F
  unfolding add_markets
  build_venue_graph t now m venue_id =
      add_markets now m (taker_fee_at t venue_id) venue_id m.symbols []

module _ {F : Type 0} ⦃f : Float F⦄ (ln exp : F → F) where
  unfoldable pub cycle_trade : CycleSettings F → F → String → Cycle F → List (Opportunity F)
  cycle_trade cfg now venue_id c =
      let pct = profit_pct ln exp c in
      let opp = on_one_venue (
        report "triangular" (text_append venue_id (text_append ":" (join "-" c.assets)))
          (map (λ e. cycle_leg (price_of_edge e) e) c.edges) pct pct cfg.max_trade_usd now) in
      if pct <? cfg.min_profit_pct then [] else opp ∷ []

  unfoldable pub cycles_from :
      CycleSettings F → F → Graph F → String → String → List (Opportunity F)
  unfolding cycle_trade
  cycles_from cfg now g venue_id start =
      concat_map (cycle_trade cfg now venue_id)
        (find_cycles ln g start cfg.max_cycle_length max_expansions)

  -- `_scan_venue`
  unfoldable pub scan_venue :
      CycleSettings F → Venues F → F → MarketState F → String → List (Opportunity F)
  unfolding cycles_from dedupe_by_stops
  scan_venue cfg t now m venue_id =
      let g = build_venue_graph t now m venue_id in
      dedupe_by_stops
        (concat_map (cycles_from cfg now g venue_id) (filter (λ a. member a hub_assets) (nodes g)))
        []

  unfoldable pub triangular_scan :
      CycleSettings F → Venues F → F → MarketState F → List (Opportunity F)
  unfolding scan_venue
  triangular_scan cfg t now m =
      best_first (concat_map (scan_venue cfg t now m) (all_venues m.book_store))
