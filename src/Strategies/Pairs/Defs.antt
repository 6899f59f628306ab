-- ===== src/Strategies/Pairs/Defs.antt =====
-- The grid and the scan.
use crypto_arb_engine.Prelude.{
  ℕ, suc, Bool, true, false, none, List, [], ◌∷◌, ◌++◌, String, if◌then◌else◌, ◌==◌, ◌&&◌, ltb,
  length,
}
use crypto_arb_engine.Prelude.Sort.{sort}
use crypto_arb_engine.Float.{Float, ◌⊕◌, ◌⊖◌, ◌⊗◌, ◌⊘◌, ◌<?◌, ◌≤?◌, nought, min, hundred}
use crypto_arb_engine.Core.Types.{Side, Opportunity}
use crypto_arb_engine.Core.Market.{MarketState, Row, SymbolMatrix, matrix_for_symbol}
use crypto_arb_engine.Config.Venues.{Venues, taker_fee_for}

-- The settings of either strategy.
pub record Settings (F : Type 0) : Type 0 where
  pub min_profit_pct : F
  pub max_trade_usd : F
  pub min_lag_sec : F

-- A row of the matrix with its index.
abbrev pub Place : Type 0 → Type 0
Place F = ℕ × Row F

abbrev pub number_from : {F : Type 0} → ℕ → List (Row F) → List (Place F)
number_from n [] = []
number_from n (r ∷ rows) = (n, r) ∷ number_from (suc n) rows

-- A strategy, as its name, settings and test of a pair.
pub record Detector (F : Type 0) : Type 0 where
  pub name : String
  pub settings : Settings F
  pub gate : Venues F → Place F → Place F → Bool

module _ {F : Type 0} ⦃f : Float F⦄ where
  -- TAKER_FEE_FALLBACK
  abbrev pub taker_fee_fallback : F
  taker_fee_fallback = f.lit 1 3

  abbrev pub fee_of : Venues F → Row F → F
  fee_of t r = taker_fee_for t r.venue_id taker_fee_fallback none

  unfoldable pub gross_pct : Row F → Row F → F
  gross_pct buy sell = (sell.bid_price ⊖ buy.ask_price) ⊘ buy.ask_price ⊗ hundred

  -- An entry of the matrix of net profits, with minus infinity on its diagonal.
  unfoldable pub net_pct : Venues F → Place F → Place F → F
  unfolding gross_pct
  net_pct t (i, buy) (j, sell) =
      if i == j then f.neg f.inf else gross_pct buy sell ⊖ (fee_of t buy ⊕ fee_of t sell) ⊗ hundred

  -- The tests of a pair.
  unfoldable pub cross_exchange_gate : Settings F → Venues F → Place F → Place F → Bool
  cross_exchange_gate cfg t buy sell = cfg.min_profit_pct ≤? net_pct t buy sell

  unfoldable pub latency_gate : Settings F → Venues F → Place F → Place F → Bool
  latency_gate cfg t buy sell =
      cfg.min_profit_pct ≤? net_pct t buy sell
      && cfg.min_lag_sec ≤? (sell.1.timestamp ⊖ buy.1.timestamp)

  -- The size of a trade between two rows.
  abbrev pub trade_usd : Settings F → Row F → Row F → F
  trade_usd cfg buy sell = min (min buy.ask_size sell.bid_size ⊗ buy.ask_price) cfg.max_trade_usd

  abbrev pub spread :
      String → Settings F → Venues F → String → F → Place F → Place F → Opportunity F
  spread name cfg t symbol now (i, buy) (j, sell) =
      let size_usd = trade_usd cfg buy sell in
      let units = size_usd ⊘ buy.ask_price in
      record {
        strategy = name;
        symbol = symbol;
        legs =
            record {
              venue_id = buy.venue_id;
              symbol = symbol;
              side = Side.buy;
              price = buy.ask_price;
              size = units;
              fee = fee_of t buy;
            }
            ∷ record {
              venue_id = sell.venue_id;
              symbol = symbol;
              side = Side.sell;
              price = sell.bid_price;
              size = units;
              fee = fee_of t sell;
            }
            ∷ [];
        gross_profit_pct = gross_pct buy sell;
        net_profit_pct = net_pct t (i, buy) (j, sell);
        max_size_usd = size_usd;
        detected_at = now;
        requires_prefunded_inventory = true;
        is_atomic = false;
        reservations = none;
      }

  -- What one pair contributes.
  unfoldable pub candidate :
      Detector F → Venues F → String → F → Place F → Place F → List (Opportunity F)
  candidate d t symbol now buy sell =
      if d.gate t buy sell
      then (if trade_usd d.settings buy.1 sell.1 ≤? nought
          then []
          else spread d.name d.settings t symbol now buy sell ∷ [])
      else []

  unfoldable pub against :
      Detector F → Venues F → String → F → Place F → List (Place F) → List (Opportunity F)
  unfolding candidate
  against d t symbol now buy [] = []
  against d t symbol now buy (sell ∷ sells) =
      candidate d t symbol now buy sell ++ against d t symbol now buy sells

  -- `np.where` goes through the rows, and through the columns of each.
  unfoldable pub grid :
      Detector F → Venues F → String → F → List (Place F) → List (Place F) → List (Opportunity F)
  unfolding against
  grid d t symbol now sells [] = []
  grid d t symbol now sells (buy ∷ buys) =
      against d t symbol now buy sells ++ grid d t symbol now sells buys

  unfoldable pub scan_symbol :
      Detector F → Venues F → String → F → SymbolMatrix F → List (Opportunity F)
  unfolding grid
  scan_symbol d t symbol now matrix =
      if ltb (length matrix) 2
      then []
      else grid d t symbol now (number_from 0 matrix) (number_from 0 matrix)

  -- The loop over the symbols; the snapshot's cache is filled on the way.
  unfoldable pub scan_symbols :
      Detector F → Venues F → F → List String → MarketState F → MarketState F × List (Opportunity F)
  unfolding scan_symbol
  scan_symbols d t now [] m = (m, [])
  scan_symbols d t now (symbol ∷ symbols) m =
      let (m', matrix) = matrix_for_symbol now symbol m in
      let (m'', rest) = scan_symbols d t now symbols m' in
      (m'', scan_symbol d t symbol now matrix ++ rest)

  abbrev pub by_net_down : Opportunity F → Opportunity F → Bool
  by_net_down a b = b.net_profit_pct <? a.net_profit_pct

  unfoldable pub scan :
      Detector F → Venues F → F → MarketState F → MarketState F × List (Opportunity F)
  unfolding scan_symbols
  scan d t now m =
      let (m', found) = scan_symbols d t now m.symbols m in (m', sort by_net_down found)

  abbrev pub cross_exchange : Settings F → Detector F
  cross_exchange cfg = record {
    name = "cross_exchange";
    settings = cfg;
    gate = cross_exchange_gate cfg;
  }

  abbrev pub latency_arb : Settings F → Detector F
  latency_arb cfg = record { name = "latency_arb"; settings = cfg; gate = latency_gate cfg }
