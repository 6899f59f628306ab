-- ===== src/Strategies/Spot/MakerRebate.antt =====
-- strategies/maker_rebate.py: `MakerRebateStrategy`. The texts of `detail` are left out.
use crypto_arb_engine.Prelude.{
  Bool, none, List, [], ◌∷◌, ◌++◌, String, if◌then◌else◌, ◌==◌, ◌&&◌, ltb, length,
}
use crypto_arb_engine.Float.{Float, ◌⊕◌, ◌⊖◌, ◌⊗◌, ◌⊘◌, ◌<?◌, ◌≤?◌, ◌==?◌, nought, hundred}
use crypto_arb_engine.Core.Types.{Side, Opportunity}
use crypto_arb_engine.Core.Market.{MarketState, Row, SymbolMatrix, matrix_for_symbol}
use crypto_arb_engine.Config.Venues.{Venues, maker_fee_for}
use crypto_arb_engine.Strategies.Shared.{
  concat_map, leg_at, taker_fee_at, maker_fallback, report, best_first,
}
use crypto_arb_engine.Strategies.Pairs.{Settings, Place, number_from, gross_pct, trade_usd}

pub data FillPath : Type 0 where
  maker_taker taker_maker maker_maker : FillPath

module _ {F : Type 0} ⦃f : Float F⦄ where
  abbrev pub taker_at : Venues F → Row F → F
  taker_at t r = taker_fee_at t r.venue_id

  abbrev pub maker_at : Venues F → Row F → F
  maker_at t r = maker_fee_for t r.venue_id maker_fallback none

  abbrev pub buy_fee : Venues F → FillPath → Row F → F
  buy_fee t FillPath.maker_taker r = maker_at t r
  buy_fee t FillPath.taker_maker r = taker_at t r
  buy_fee t FillPath.maker_maker r = maker_at t r

  abbrev pub sell_fee : Venues F → FillPath → Row F → F
  sell_fee t FillPath.maker_taker r = taker_at t r
  sell_fee t FillPath.taker_maker r = maker_at t r
  sell_fee t FillPath.maker_maker r = maker_at t r

  unfoldable pub path_pct : Venues F → FillPath → Row F → Row F → F
  path_pct t path buy sell =
      gross_pct buy sell ⊖ (buy_fee t path buy ⊕ sell_fee t path sell) ⊗ hundred

  unfoldable pub taker_taker_pct : Venues F → Row F → Row F → F
  taker_taker_pct t buy sell = gross_pct buy sell ⊖ (taker_at t buy ⊕ taker_at t sell) ⊗ hundred

  -- `np.maximum`, which hands on a NaN.
  abbrev pub np_maximum : F → F → F
  np_maximum x y = if y ==? y then (if x <? y then y else x) else y

  unfoldable pub best_pct : Venues F → Row F → Row F → F
  unfolding path_pct
  best_pct t buy sell =
      np_maximum
        (np_maximum (path_pct t FillPath.maker_taker buy sell)
          (path_pct t FillPath.taker_maker buy sell))
        (path_pct t FillPath.maker_maker buy sell)

  -- `max(paths, key=paths.get)`: the first of the best.
  unfoldable pub best_path : Venues F → Row F → Row F → FillPath
  unfolding path_pct
  best_path t buy sell =
      let mt = path_pct t FillPath.maker_taker buy sell in
      let tm = path_pct t FillPath.taker_maker buy sell in
      let mm = path_pct t FillPath.maker_maker buy sell in
      if mt <? tm
      then (if tm <? mm then FillPath.maker_maker else FillPath.taker_maker)
      else (if mt <? mm then FillPath.maker_maker else FillPath.maker_taker)

  -- The test of a pair, with minus infinity on the diagonal of both matrices.
  unfoldable pub maker_gate : Settings F → Venues F → Place F → Place F → Bool
  unfolding best_pct taker_taker_pct
  maker_gate cfg t (i, buy) (j, sell) =
      let best = if i == j then f.neg f.inf else best_pct t buy sell in
      let takers = if i == j then f.neg f.inf else taker_taker_pct t buy sell in
      cfg.min_profit_pct ≤? best && takers <? cfg.min_profit_pct

  abbrev pub rebate_legs :
      Venues F → String → FillPath → F → Row F → Row F → (now net gross size : F) → Opportunity F
  rebate_legs t symbol path units buy sell now net gross size =
      report "maker_rebate" symbol
        (leg_at Side.buy units (record {
          venue_id = buy.venue_id;
          symbol = symbol;
          price = buy.ask_price;
          fee = buy_fee t path buy;
        })
          ∷ leg_at Side.sell units (record {
            venue_id = sell.venue_id;
            symbol = symbol;
            price = sell.bid_price;
            fee = sell_fee t path sell;
          })
          ∷ [])
        gross net size now

  unfoldable pub rebate :
      Settings F → Venues F → String → F → Place F → Place F → List (Opportunity F)
  unfolding maker_gate best_path
  rebate cfg t symbol now (i, buy) (j, sell) =
      let path = best_path t buy sell in
      let size_usd = trade_usd cfg buy sell in
      if maker_gate cfg t (i, buy) (j, sell)
      then (if size_usd ≤? nought
          then []
          else rebate_legs t symbol path (size_usd ⊘ buy.ask_price) buy sell now
              (path_pct t path buy sell) (gross_pct buy sell) size_usd
            ∷ [])
      else []

  unfoldable pub rebates_of :
      Settings F → Venues F → String → F → SymbolMatrix F → List (Opportunity F)
  unfolding rebate
  rebates_of cfg t symbol now matrix =
      let places = number_from 0 matrix in
      if ltb (length matrix) 2
      then []
      else concat_map (λ buy. concat_map (rebate cfg t symbol now buy) places) places

  unfoldable pub rebates :
      Settings F → Venues F → F → List String → MarketState F → MarketState F × List (Opportunity F)
  unfolding rebates_of
  rebates cfg t now [] m = (m, [])
  rebates cfg t now (symbol ∷ symbols) m =
      let (m', matrix) = matrix_for_symbol now symbol m in
      let (m'', rest) = rebates cfg t now symbols m' in
      (m'', rebates_of cfg t symbol now matrix ++ rest)

  unfoldable pub maker_rebate_scan :
      Settings F → Venues F → F → MarketState F → MarketState F × List (Opportunity F)
  unfolding rebates
  maker_rebate_scan cfg t now m =
      let (m', found) = rebates cfg t now m.symbols m in (m', best_first found)
