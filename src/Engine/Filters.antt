-- ===== src/Engine/Filters.antt =====
-- main.py: `is_fillable`, `is_rebalanceable`, `route_key` and `dedupe_by_route`.
pub mod Routes
use crypto_arb_engine.Prelude.Sort.{sort}
use crypto_arb_engine.Prelude.{
  ℕ, zero, suc, ◌+◌, ◌≡◌, ◌↔◌, refl, Bool, true, false, not, Option, none, some, List, [], ◌∷◌, map,
  filter, String, if◌then◌else◌, ◌&&◌, ◌||◌, arith,
}
use crypto_arb_engine.Prelude.Dict.{Dict, Key, string_key, lookup, set}
use crypto_arb_engine.Prelude.Text.{split_slash}
use crypto_arb_engine.Float.{Float, ◌<?◌, ◌≤?◌, max}
use crypto_arb_engine.Core.Types.{Side, is_buy, Leg, Opportunity}
use crypto_arb_engine.Core.Route.{Stop, stop_before, side_text, route_equality}
use crypto_arb_engine.Core.Graph.{member}
use crypto_arb_engine.Config.Venues.{Venues, min_order_usd_for, can_withdraw, can_deposit}

module _ {F : Type 0} ⦃f : Float F⦄ where
  -- `max(...)` over the legs' minimums, with the largest so far.
  unfoldable pub required : Venues F → F → List (Leg F) → F
  required t best [] = best
  required t best (leg ∷ legs) = required t (max best (min_order_usd_for t leg.venue_id)) legs

  abbrev pub fillable_legs : Venues F → F → List (Leg F) → Bool
  fillable_legs t size [] = false
  fillable_legs t size (leg ∷ legs) = required t (min_order_usd_for t leg.venue_id) legs ≤? size

  unfoldable pub is_fillable : Venues F → Opportunity F → Bool
  unfolding required
  is_fillable t o = fillable_legs t o.max_size_usd o.legs

abbrev pub is_sell : Side → Bool
is_sell Side.sell = true
is_sell _ = false

-- Every element of the first list is in the second.
unfoldable pub subset : List String → List String → Bool
subset [] ys = true
subset (x ∷ xs) ys = member x ys && subset xs ys

abbrev pub is_nil {ℓ} : {A : Type ℓ} → List A → Bool
is_nil [] = true
is_nil (x ∷ xs) = false

module _ {F : Type 0} where
  abbrev pub venues_of : (Side → Bool) → List (Leg F) → List String
  venues_of p legs = map (λ l. l.venue_id) (filter (λ l. p l.side) legs)

  abbrev pub side_moves : Venues F → Side → String → String → Bool
  side_moves t Side.buy venue base = can_withdraw t venue base
  side_moves t Side.sell venue base = can_deposit t venue base
  side_moves t Side.transfer venue base = true

  -- One leg's asset can move as the next round needs it.
  abbrev pub spot_moves : Venues F → Leg F → Option (String × String) → Bool
  spot_moves t leg none = true
  spot_moves t leg (some (base, quote)) = side_moves t leg.side leg.venue_id base

  unfoldable pub legs_move : Venues F → List (Leg F) → Bool
  legs_move t [] = true
  legs_move t (leg ∷ legs) =
      let rest = legs_move t legs in
      if spot_moves t leg (split_slash leg.symbol) then rest else false

  unfoldable pub is_rebalanceable : Venues F → Opportunity F → Bool
  unfolding legs_move subset
  is_rebalanceable t o =
      let buys = venues_of is_buy o.legs in
      let sells = venues_of is_sell o.legs in
      if is_nil buys || (subset buys sells && subset sells buys) then true else legs_move t o.legs

module _ {F : Type 0} where
  unfoldable pub route_key : Opportunity F → List Stop
  route_key o = sort stop_before (map (λ l. (l.venue_id, l.symbol, side_text l.side)) o.legs)

-- `dedupe_by_route`: the best of each route, and the number of duplicates.
module _ {F : Type 0} ⦃f : Float F⦄ where
  abbrev pub note :
      Opportunity F
      → Option (Opportunity F)
      → Dict (List Stop) (Opportunity F) × ℕ
      → Dict (List Stop) (Opportunity F) × ℕ
  note o none (best, duplicates) = (set (route_key o) o best, duplicates)
  note o (some incumbent) (best, duplicates) = (
    if incumbent.net_profit_pct <? o.net_profit_pct then set (route_key o) o best else best,
    duplicates + 1,
  )

  unfoldable pub dedupe_loop :
      List (Opportunity F)
      → Dict (List Stop) (Opportunity F) × ℕ
      → Dict (List Stop) (Opportunity F) × ℕ
  unfolding route_key
  dedupe_loop [] s = s
  dedupe_loop (o ∷ os) s = dedupe_loop os (note o (lookup (route_key o) s.0) s)

  unfoldable pub dedupe_by_route : List (Opportunity F) → List (Opportunity F) × ℕ
  unfolding dedupe_loop
  dedupe_by_route os =
      let (best, duplicates) = dedupe_loop os ([], 0) in (map (λ e. e.1) best, duplicates)
