-- ===== src/Strategies/Futures/BasisCarry.antt =====
-- strategies/basis_carry.py: `BasisCarryStrategy`. `int_text` prints a time as a whole number.
use Prim.Native.String.{◌++◌ as text_append}
use crypto_arb_engine.Prelude.{List, [], ◌∷◌, String, if◌then◌else◌}
use crypto_arb_engine.Float.{Float, ◌⊖◌, ◌⊗◌, ◌⊘◌, ◌<?◌, ◌≤?◌, nought, min, abs, hundred}
use crypto_arb_engine.Core.Types.{Side, Opportunity, FuturesQuote, basis_pct, annualized_basis_pct}
use crypto_arb_engine.Core.Market.{MarketState}
use crypto_arb_engine.Config.Venues.{Venues}
use crypto_arb_engine.Strategies.Pairs.{Settings}
use crypto_arb_engine.Strategies.Shared.{
  concat_map, leg_at, taker_fee_at, report, best_first, opposite,
}

-- The symbol of a dated future.
abbrev pub dated : {F : Type 0} → (F → String) → String → F → String
dated int_text symbol expiry_ts = text_append symbol (text_append "-" (int_text expiry_ts))

module _ {F : Type 0} ⦃f : Float F⦄ (int_text : F → String) where
  -- In contango the spot is bought and the future sold, else the reverse.
  abbrev pub spot_side : F → Side
  spot_side annualized = if nought <? annualized then Side.buy else Side.sell

  unfoldable pub carry_of :
      Settings F → Venues F → F → (String × String × F) × FuturesQuote F → List (Opportunity F)
  carry_of cfg t now ((venue_id, symbol, expiry_ts), quote) =
      let annualized = annualized_basis_pct now quote in
      let fee = taker_fee_at t venue_id in
      let size_usd = min cfg.max_trade_usd (quote.spot_price ⊗ f.lit 10 0) in
      let units = size_usd ⊘ quote.spot_price in
      let opp =
        report "basis_carry" symbol
          (leg_at (spot_side annualized) units
              (record { venue_id = venue_id; symbol = symbol; price = quote.spot_price; fee = fee })
            ∷ leg_at (opposite (spot_side annualized)) units (record {
              venue_id = venue_id;
              symbol = dated int_text symbol expiry_ts;
              price = quote.price;
              fee = fee;
            })
            ∷ [])
          (abs (basis_pct quote)) (abs annualized ⊖ fee ⊗ f.lit 2 0 ⊗ hundred) size_usd now in
      if abs annualized <? cfg.min_profit_pct
      then []
      else (if quote.spot_price ≤? nought then [] else opp ∷ [])

  unfoldable pub basis_carry_scan : Settings F → Venues F → F → MarketState F → List (Opportunity F)
  unfolding carry_of
  basis_carry_scan cfg t now m = best_first (concat_map (carry_of cfg t now) m.futures_quotes)
