-- ===== src/Strategies/Cycles/MultiLeg.antt =====
-- strategies/multi_leg.py: `build_cross_venue_graph` and `MultiLegStrategy`. A symbol is taken to have at
-- most one slash. `ln` and `exp` stand for `math.log` and `math.exp`; the latencies stand only in
-- `detail`, which is left out.
use Prim.Native.String.{◌++◌ as text_append}
use crypto_arb_engine.Prelude.{
  Bool, false, not, Option, none, some, List, [], ◌∷◌, ◌++◌, map, filter, take, String,
  if◌then◌else◌, ◌||◌,
}
use crypto_arb_engine.Prelude.Dict.{Dict, string_key, pair_key, lookup, get, set}
use crypto_arb_engine.Prelude.Sort.{sort}
use crypto_arb_engine.Prelude.Text.{split_slash, last_part, join}
use crypto_arb_engine.Float.{Float, ◌⊘◌, ◌<?◌, ◌≤?◌, ◌==?◌, nought, min}
use crypto_arb_engine.Core.Types.{Side, is_transfer, Opportunity}
use crypto_arb_engine.Core.Book.{BookState, OrderBook, find_book, all_venues, best_bid, best_ask}
use crypto_arb_engine.Core.Route.{text_before}
use crypto_arb_engine.Core.Graph.{
  Edge, Cycle, Graph, nodes, add_edge, find_cycles, profit_pct, member,
}
use crypto_arb_engine.Core.Market.{MarketState}
use crypto_arb_engine.Config.Venues.{Venues, CexVenue}
use crypto_arb_engine.Strategies.Cycles.{
  CycleSettings, hub_assets, max_expansions, dedupe_by_stops, price_of_edge, cycle_leg,
}
use crypto_arb_engine.Strategies.Shared.{concat_map, taker_fee_at, is_stale, report, best_first}

-- `_node`
abbrev pub node_of : String → String → String
node_of venue_id asset = text_append venue_id (text_append ":" asset)

-- `prices`, by venue and asset.
abbrev pub Prices : Type 0 → Type 0
Prices F = Dict (String × String) F

-- The graph that is built, and the prices that are noted.
pub record Venture (F : Type 0) : Type 0 where
  pub graph : Graph F
  pub prices : Prices F

-- The venue and the asset of a price, in `assets_by_venue`.
unfoldable pub assets_by_venue :
    {F : Type 0} → Prices F → Dict String (List String) → Dict String (List String)
assets_by_venue [] d = d
assets_by_venue (((venue_id, asset), price) ∷ prices) d =
    let known = get [] venue_id d in
    assets_by_venue prices
      (set venue_id (if member asset known then known else known ++ (asset ∷ [])) d)

-- The venues to which an asset is moved from a venue: MAX_TRANSFER_VENUES_PER_ASSET at most.
unfoldable pub partners : Dict String (List String) → List String → String → String → List String
partners assets venues venue_a asset = take 5 (
    filter (λ v. member asset (get [] v assets))
      (sort text_before (filter (λ v. not (string_key.same v venue_a)) venues)))

module _ {F : Type 0} ⦃f : Float F⦄ where
  abbrev pub quote_price : Prices F → String → String → F
  quote_price prices venue_id quote =
      if member quote ("USDT" ∷ "USDC" ∷ [])
      then f.lit 1 0
      else get (f.lit 1 0) (venue_id, quote) prices

  -- Two edges and two prices.
  abbrev pub conversions :
      (venue_id symbol base quote : String) → (fee : F) → BookState F → Venture F → Venture F
  conversions venue_id symbol base quote fee st w =
      let bought : Edge F = record {
        src = node_of venue_id quote;
        dst = node_of venue_id base;
        rate = f.lit 1 0 ⊘ best_ask st;
        fee = fee;
        venue_id = venue_id;
        symbol = symbol;
        side = Side.buy;
      } in
      let sold : Edge F = record {
        src = node_of venue_id base;
        dst = node_of venue_id quote;
        rate = best_bid st;
        fee = fee;
        venue_id = venue_id;
        symbol = symbol;
        side = Side.sell;
      } in
      let priced = set (venue_id, base) (best_bid st) w.prices in
      record {
        graph = add_edge sold (add_edge bought w.graph);
        prices = set (venue_id, quote) (quote_price priced venue_id quote) priced;
      }

  unfoldable pub add_quote :
      F
      → MarketState F
      → (fee : F) → (venue_id symbol : String) → Option (OrderBook F)
      → Option (String × String)
      → Venture F
      → Venture F
  unfolding is_stale
  add_quote now m fee venue_id symbol none parts w = w
  add_quote now m fee venue_id symbol (some book) none w = w
  add_quote now m fee venue_id symbol (some book) (some (base, quote)) w =
      let st = book.state in
      if is_stale now m st
        || (best_bid st ≤? nought || (best_ask st ==? nought || best_ask st ==? f.inf))
      then w
      else conversions venue_id symbol base quote fee st w

  unfoldable pub add_quotes :
      F → MarketState F → (fee : F) → String → List String → Venture F → Venture F
  unfolding add_quote
  add_quotes now m fee venue_id [] w = w
  add_quotes now m fee venue_id (symbol ∷ symbols) w = add_quotes now m fee venue_id symbols (
      add_quote now m fee venue_id symbol (find_book m.book_store venue_id symbol)
        (split_slash symbol) w)

  unfoldable pub add_venues : Venues F → F → MarketState F → List String → Venture F → Venture F
  unfolding add_quotes
  add_venues t now m [] w = w
  add_venues t now m (venue_id ∷ venues) w =
      add_venues t now m venues (add_quotes now m (taker_fee_at t venue_id) venue_id m.symbols w)

  -- What the withdrawal costs of the trade, one half at most.
  unfoldable pub transfer_fee : Dict String (CexVenue F) → F → Prices F → String → String → F
  transfer_fee venues reference_trade_usd prices venue_a asset =
      let price = get (f.lit 1 0) (venue_a, asset) prices in
      let flat_fee : F = elim (lookup venue_a venues) [
        | none ↦ nought
        | some v ↦ get nought asset v.withdrawal_fees
      ] in
      let notional_units = if nought <? price then reference_trade_usd ⊘ price else nought in
      min (if nought <? notional_units then flat_fee ⊘ notional_units else f.lit 1 3) (f.lit 5 1)

  abbrev pub transfer_edge : String → String → String → F → Edge F
  transfer_edge venue_a asset venue_b fee = record {
    src = node_of venue_a asset;
    dst = node_of venue_b asset;
    rate = f.lit 1 0;
    fee = fee;
    venue_id = text_append venue_a (text_append "->" venue_b);
    symbol = "TRANSFER";
    side = Side.transfer;
  }

  unfoldable pub add_transfers : String → String → F → List String → Graph F → Graph F
  add_transfers venue_a asset fee [] g = g
  add_transfers venue_a asset fee (venue_b ∷ others) g =
      add_transfers venue_a asset fee others (add_edge (transfer_edge venue_a asset venue_b fee) g)

  -- The transfers of the assets of one venue.
  unfoldable pub transfers_from :
      Dict String (CexVenue F)
      → F
      → Prices F
      → Dict String (List String)
      → List String
      → String
      → List String
      → Graph F
      → Graph F
  unfolding transfer_fee partners add_transfers
  transfers_from cex reference_trade_usd prices assets venues venue_a [] g = g
  transfers_from cex reference_trade_usd prices assets venues venue_a (asset ∷ held) g =
      transfers_from cex reference_trade_usd prices assets venues venue_a held (
        add_transfers venue_a asset (transfer_fee cex reference_trade_usd prices venue_a asset)
          (partners assets venues venue_a asset) g)

  unfoldable pub transfers_of :
      Dict String (CexVenue F)
      → F
      → Prices F
      → Dict String (List String)
      → (venues left : List String) → Graph F
      → Graph F
  unfolding transfers_from
  transfers_of cex reference_trade_usd prices assets venues [] g = g
  transfers_of cex reference_trade_usd prices assets venues (venue_a ∷ left) g =
      transfers_of cex reference_trade_usd prices assets venues left (
        transfers_from cex reference_trade_usd prices assets venues venue_a (get [] venue_a assets)
          g)

  unfoldable pub build_cross_venue_graph :
      Dict String (CexVenue F) → Venues F → F → MarketState F → F → Graph F
  unfolding add_venues transfers_of assets_by_venue
  build_cross_venue_graph cex t now m reference_trade_usd =
      let venues = all_venues m.book_store in
      let w = add_venues t now m venues (record { graph = []; prices = [] }) in
      transfers_of cex reference_trade_usd w.prices (assets_by_venue w.prices []) venues venues
        w.graph

module _ {F : Type 0} ⦃f : Float F⦄ (ln exp : F → F) where
  abbrev pub has_transfer : List (Edge F) → Bool
  has_transfer [] = false
  has_transfer (e ∷ es) = is_transfer e.side || has_transfer es

  -- An edge without a rate has the price 0.
  abbrev pub route_price : Edge F → F
  route_price e = if e.rate ==? nought then nought else price_of_edge e

  unfoldable pub route_trade : CycleSettings F → F → Cycle F → List (Opportunity F)
  route_trade cfg now c =
      let pct = profit_pct ln exp c in
      let opp =
        report "multi_leg" (text_append "multi:" (join "-" c.assets))
          (map (λ e. cycle_leg (route_price e) e) c.edges) pct pct cfg.max_trade_usd now in
      if not (has_transfer c.edges)
      then []
      else (if pct <? cfg.min_profit_pct then [] else opp ∷ [])

  unfoldable pub multi_leg_scan :
      CycleSettings F
      → Dict String (CexVenue F)
      → Venues F
      → F
      → MarketState F
      → List (Opportunity F)
  unfolding route_trade dedupe_by_stops
  multi_leg_scan cfg cex t now m =
      let g = build_cross_venue_graph cex t now m cfg.max_trade_usd in
      let starts = filter (λ n. member (last_part n) hub_assets) (nodes g) in
      best_first (
        dedupe_by_stops
          (concat_map
            (λ start.
              concat_map (route_trade cfg now)
                (find_cycles ln g start cfg.max_cycle_length max_expansions))
            starts)
          [])
