-- ===== src/Execution/Router/Defs.antt =====
-- The router's methods. An opportunity whose `detail` changes is returned anew.
use crypto_arb_engine.Prelude.{
  Bool, true, false, Option, none, some, List, [], ◌∷◌, String, if◌then◌else◌, or_default,
}
use crypto_arb_engine.Prelude.Sort.{sort}
use crypto_arb_engine.Prelude.Text.{split_slash}
use crypto_arb_engine.Float.{Float, ◌⊗◌, ◌<?◌, ◌≤?◌, nought}
use crypto_arb_engine.Core.Types.{Side, is_buy, Leg, Reservation, Opportunity}
use crypto_arb_engine.Analytics.Metrics.{Metrics, record_rejection}
use crypto_arb_engine.Execution.Inventory.{Inventory, reserve, release, settle, credit}

-- The asset that a leg spends: `_leg_asset`.
unfoldable pub leg_asset : String → Side → String
leg_asset symbol side = elim (split_slash symbol) [
  | none ↦ symbol
  | some (base, quote) ↦ if is_buy side then quote else base
]

module _ {F : Type 0} ⦃f : Float F⦄ where
  unfoldable pub leg_amount : Leg F → F
  leg_amount leg = if is_buy leg.side then leg.price ⊗ leg.size else leg.size

  abbrev pub reservation_of : Leg F → Reservation F
  reservation_of leg = record {
    venue_id = leg.venue_id;
    asset = leg_asset leg.symbol leg.side;
    amount = leg_amount leg;
  }

  abbrev pub reserve_for : Inventory F → Reservation F → Inventory F × Bool
  reserve_for inv r = reserve inv r.venue_id r.asset r.amount

  -- The loop over an opportunity's legs: the inventory, what was reserved, and whether all was.
  unfoldable pub reserve_legs :
      Inventory F → List (Leg F) → Inventory F × List (Reservation F) × Bool
  reserve_legs inv [] = (inv, [], true)
  reserve_legs inv (leg ∷ legs) =
      let r = reservation_of leg in
      let (inv', reserved) = reserve_for inv r in
      let skipped = reserve_legs inv legs in
      let (last, rest, ok) = reserve_legs inv' legs in
      if r.amount ≤? nought
      then skipped
      else (if reserved then (last, r ∷ rest, ok) else (inv', [], false))

  unfoldable pub release_all : List (Reservation F) → Inventory F → Inventory F
  release_all [] inv = inv
  release_all (r ∷ rs) inv = release_all rs (release inv r.venue_id r.asset r.amount)

  -- `sorted(..., key=expected value, reverse=True)`
  abbrev pub expected_value : Opportunity F → F
  expected_value o = o.net_profit_pct ⊗ o.max_size_usd

  abbrev pub by_value_down : Opportunity F → Opportunity F → Bool
  by_value_down a b = expected_value b <? expected_value a

  abbrev pub count_rejection : Option (Metrics F) → String → Option (Metrics F)
  count_rejection none reason = none
  count_rejection (some m) reason = some (record_rejection reason m)

  -- The loop over the ranked opportunities, with the inventory and the metrics.
  unfoldable pub select_loop :
      Inventory F
      → Option (Metrics F)
      → List (Opportunity F)
      → Inventory F × Option (Metrics F) × List (Opportunity F)
  unfolding reserve_legs release_all
  select_loop inv metrics [] = (inv, metrics, [])
  select_loop inv metrics (o ∷ ranked) =
      let (inv', reserved, ok) = reserve_legs inv o.legs in
      let (kept, kept_metrics, accepted) = select_loop inv' metrics ranked in
      let dropped =
        select_loop (release_all reserved inv') (count_rejection metrics "no_balance_on_venue")
          ranked in
      if ok
      then (kept, kept_metrics, record o { reservations = some reserved } ∷ accepted)
      else dropped

  unfoldable pub select :
      Inventory F
      → Option (Metrics F)
      → List (Opportunity F)
      → Inventory F × Option (Metrics F) × List (Opportunity F)
  unfolding select_loop
  select inv metrics opportunities = select_loop inv metrics (sort by_value_down opportunities)

  unfoldable pub release_unfilled : Inventory F → Opportunity F → Inventory F × Opportunity F
  unfolding release_all
  release_unfilled inv o =
      (release_all (or_default [] o.reservations) inv, record o { reservations = none })

  unfoldable pub settle_all : List (Reservation F) → Inventory F → Inventory F
  settle_all [] inv = inv
  settle_all (r ∷ rs) inv = settle_all rs (settle inv r.venue_id r.asset r.amount)

  -- What one leg brings in, for a spot symbol.
  unfoldable pub credit_side : Side → Leg F → String → String → Inventory F → Inventory F
  credit_side Side.buy leg base quote inv = credit inv leg.venue_id base leg.size
  credit_side Side.sell leg base quote inv = credit inv leg.venue_id quote (leg.price ⊗ leg.size)
  credit_side Side.transfer leg base quote inv = inv

  unfoldable pub credit_leg : Option (String × String) → Leg F → Inventory F → Inventory F
  unfolding credit_side
  credit_leg none leg inv = inv
  credit_leg (some (base, quote)) leg inv =
      if leg.size ≤? nought then inv else credit_side leg.side leg base quote inv

  unfoldable pub credit_legs : List (Leg F) → Inventory F → Inventory F
  unfolding credit_leg
  credit_legs [] inv = inv
  credit_legs (leg ∷ legs) inv = credit_legs legs (credit_leg (split_slash leg.symbol) leg inv)

  abbrev pub settle_reservations : List (Reservation F) → List (Leg F) → Inventory F → Inventory F
  settle_reservations [] legs inv = inv
  settle_reservations (r ∷ rs) legs inv = credit_legs legs (settle_all (r ∷ rs) inv)

  unfoldable pub settle_fill : Inventory F → Opportunity F → Inventory F × Opportunity F
  unfolding settle_all credit_legs
  settle_fill inv o = (
    settle_reservations (or_default [] o.reservations) o.legs inv,
    record o { reservations = none },
  )
