-- ===== src/Strategies/Cycles.antt =====
-- The detectors on conversion cycles, and what they share.
pub mod Triangular
pub mod MultiLeg
pub mod Unsized
use crypto_arb_engine.Prelude.{
  ℕ, Bool, true, false, Option, some, List, [], ◌∷◌, map, String, if◌then◌else◌, ◌&&◌, ◌||◌,
}
use crypto_arb_engine.Float.{Float, ◌⊘◌, nought}
use crypto_arb_engine.Core.Types.{Side, is_buy, Leg, Opportunity}
use crypto_arb_engine.Core.Route.{Stop, side_text, same_stops}
use crypto_arb_engine.Core.Graph.{Edge}
use crypto_arb_engine.Strategies.Shared.{Market, leg_at}

pub record CycleSettings (F : Type 0) : Type 0 where
  pub min_profit_pct : F
  pub max_cycle_length : ℕ
  pub max_trade_usd : F

abbrev pub hub_assets : List String
hub_assets = "USDT" ∷ "USDC" ∷ "BTC" ∷ "ETH" ∷ []

-- MAX_CYCLE_SEARCH_EXPANSIONS
abbrev pub max_expansions : Option ℕ
max_expansions = some 2000

abbrev pub seen_before : List Stop → List (List Stop) → Bool
seen_before key [] = false
seen_before key (k ∷ seen) = same_stops key k || seen_before key seen

module _ {F : Type 0} where
  abbrev pub stops_of : List (Leg F) → List Stop
  stops_of legs = map (λ leg. (leg.venue_id, leg.symbol, side_text leg.side)) legs

  -- The opportunities whose set of stops was not seen before.
  unfoldable pub dedupe_by_stops : List (Opportunity F) → List (List Stop) → List (Opportunity F)
  dedupe_by_stops [] seen = []
  dedupe_by_stops (o ∷ opps) seen =
      let key = stops_of o.legs in
      let rest = dedupe_by_stops opps seen in
      let fresh = dedupe_by_stops opps (key ∷ seen) in
      if seen_before key seen then rest else o ∷ fresh

module _ {F : Type 0} ⦃f : Float F⦄ where
  abbrev pub price_of_edge : Edge F → F
  price_of_edge e = if is_buy e.side then f.lit 1 0 ⊘ e.rate else e.rate

  -- The legs of a cycle, whose size is left open.
  abbrev pub cycle_leg : F → Edge F → Leg F
  cycle_leg price e =
      leg_at e.side nought
        (record { venue_id = e.venue_id; symbol = e.symbol; price = price; fee = e.fee })
