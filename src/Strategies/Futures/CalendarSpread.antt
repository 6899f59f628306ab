-- ===== src/Strategies/Futures/CalendarSpread.antt =====
-- strategies/calendar_spread.py: `CalendarSpreadStrategy`. `math.log` and the printing of a time as a
-- whole number are parameters; the prices are such that the logarithm is defined.
use crypto_arb_engine.Prelude.{
  Bool, List, [], ◌∷◌, ◌++◌, map, length, ltb, String, if◌then◌else◌, ◌||◌,
}
use crypto_arb_engine.Prelude.Dict.{Dict, pair_key, get, set}
use crypto_arb_engine.Prelude.Sort.{sort}
use crypto_arb_engine.Float.{
  Float, ◌⊖◌, ◌⊗◌, ◌⊘◌, ◌<?◌, ◌≤?◌, ◌==?◌, nought, min, abs, hundred, sum_from,
}
use crypto_arb_engine.Core.Types.{Side, Opportunity, FuturesQuote, days_to_expiry}
use crypto_arb_engine.Core.Market.{MarketState}
use crypto_arb_engine.Config.Venues.{Venues}
use crypto_arb_engine.Strategies.Pairs.{Settings}
use crypto_arb_engine.Strategies.Futures.BasisCarry.{dated}
use crypto_arb_engine.Strategies.Shared.{
  concat_map, leg_at, taker_fee_at, report, best_first, opposite,
}

-- `by_venue_symbol`
abbrev pub Curves : Type 0 → Type 0
Curves F = Dict (String × String) (List (FuturesQuote F))

unfoldable pub group_quotes :
    {F : Type 0} → Dict (String × String × F) (FuturesQuote F) → Curves F → Curves F
group_quotes [] d = d
group_quotes (((venue_id, symbol, expiry), fq) ∷ quotes) d =
    group_quotes quotes (set (venue_id, symbol) (get [] (venue_id, symbol) d ++ (fq ∷ [])) d)

-- `zip(quotes, quotes[1:])`
abbrev pub neighbours :
    {F : Type 0} → List (FuturesQuote F) → List (FuturesQuote F × FuturesQuote F)
neighbours [] = []
neighbours (near ∷ []) = []
neighbours (near ∷ (far ∷ quotes)) = (near, far) ∷ neighbours (far ∷ quotes)

module _ {F : Type 0} ⦃f : Float F⦄ (ln : F → F) (int_text : F → String) where
  unfoldable pub marginal_forward_rate_pct : F → FuturesQuote F × FuturesQuote F → F
  marginal_forward_rate_pct now (near, far) =
      let day_diff = days_to_expiry now far ⊖ days_to_expiry now near in
      if day_diff ≤? nought || near.price ≤? nought
      then nought
      else ln (far.price ⊘ near.price) ⊗ (f.lit 365 0 ⊘ day_diff) ⊗ hundred

  -- The mean of the marginal rates of a curve.
  abbrev pub curve_mean : List F → F
  curve_mean rates = sum_from nought rates ⊘ f.lit (length rates) 0

  -- Where the forward rate is above the mean the far future is sold, and the near one bought.
  abbrev pub near_side : F → Side
  near_side divergence = if nought <? divergence then Side.buy else Side.sell

  unfoldable pub calendar_trade :
      Settings F
      → F
      → (venue_id symbol : String) → (fee mean : F) → FuturesQuote F × FuturesQuote F
      → List (Opportunity F)
  unfolding marginal_forward_rate_pct
  calendar_trade cfg now venue_id symbol fee mean (near, far) =
      let divergence = marginal_forward_rate_pct now (near, far) ⊖ mean in
      let size_usd = min cfg.max_trade_usd (near.price ⊗ f.lit 10 0) in
      let units = if near.price ==? nought then nought else size_usd ⊘ near.price in
      let opp =
        report "calendar_spread" symbol
          (leg_at (near_side divergence) units (record {
            venue_id = venue_id;
            symbol = dated int_text symbol near.expiry_ts;
            price = near.price;
            fee = fee;
          })
            ∷ leg_at (opposite (near_side divergence)) units (record {
              venue_id = venue_id;
              symbol = dated int_text symbol far.expiry_ts;
              price = far.price;
              fee = fee;
            })
            ∷ [])
          (abs divergence) (abs divergence ⊖ fee ⊗ f.lit 2 0 ⊗ hundred) size_usd now in
      if abs divergence <? cfg.min_profit_pct then [] else opp ∷ []

  abbrev pub by_expiry : FuturesQuote F → FuturesQuote F → Bool
  by_expiry a b = a.expiry_ts <? b.expiry_ts

  unfoldable pub curve_of :
      Settings F → Venues F → F → (String × String) × List (FuturesQuote F) → List (Opportunity F)
  unfolding calendar_trade
  curve_of cfg t now ((venue_id, symbol), quotes) =
      let pairs = neighbours (sort by_expiry quotes) in
      let mean = curve_mean (map (marginal_forward_rate_pct now) pairs) in
      if ltb (length quotes) 2
      then []
      else concat_map (calendar_trade cfg now venue_id symbol (taker_fee_at t venue_id) mean) pairs

  unfoldable pub calendar_spread_scan :
      Settings F → Venues F → F → MarketState F → List (Opportunity F)
  unfolding curve_of group_quotes
  calendar_spread_scan cfg t now m =
      best_first (concat_map (curve_of cfg t now) (group_quotes m.futures_quotes []))
