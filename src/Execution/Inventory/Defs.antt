-- ===== src/Execution/Inventory/Defs.antt =====
-- The operations on balances.
use crypto_arb_engine.Prelude.{
  ◌==◌, Bool, true, false, none, some, List, [], ◌∷◌, String, length, if◌then◌else◌, ◌||◌,
}
use crypto_arb_engine.Prelude.Dict.{Dict, string_key, pair_key, lookup, get, set}
use crypto_arb_engine.Float.{Float, ◌⊕◌, ◌⊖◌, ◌⊗◌, ◌⊘◌, ◌<?◌, ◌≤?◌, ◌==?◌, nought, min, max}
use crypto_arb_engine.Core.Types.{Balance, total}
use crypto_arb_engine.Config.Venues.{Venues}

-- `_balances`
abbrev pub Inventory : Type 0 → Type 0
Inventory F = Dict (String × String) (Balance F)

pub record RebalanceSignal (F : Type 0) : Type 0 where
  pub asset : String
  pub underfunded_venue : String
  pub current_fraction : F
  pub fair_fraction : F
  pub suggested_source_venue : String

pub record TransferEstimate (F : Type 0) : Type 0 where
  pub from_venue : String
  pub to_venue : String
  pub asset : String
  pub fee_units : F
  pub latency_sec : F

module _ {F : Type 0} ⦃f : Float F⦄ where
  abbrev pub balance : String → String → F → F → Balance F
  balance venue_id asset free locked = record {
    venue_id = venue_id;
    asset = asset;
    free = free;
    locked = locked;
  }

  unfoldable pub set_balance : String → String → F → F → Inventory F → Inventory F
  set_balance venue_id asset free locked =
      set (venue_id, asset) (balance venue_id asset free locked)

  unfoldable pub get_balance : Inventory F → String → String → Balance F
  get_balance inv venue_id asset = get (balance venue_id asset nought nought) (venue_id, asset) inv

  unfoldable pub reserve : Inventory F → String → String → F → Inventory F × Bool
  reserve inv venue_id asset amount =
      let b = get_balance inv venue_id asset in
      if b.free <? amount then (inv, false) else (
        set (venue_id, asset) (record b { free = b.free ⊖ amount; locked = b.locked ⊕ amount }) inv,
        true,
      )

  unfoldable pub release : Inventory F → String → String → F → Inventory F
  release inv venue_id asset amount =
      let b = get_balance inv venue_id asset in
      let given = min amount b.locked in
      set (venue_id, asset) (record b { free = b.free ⊕ given; locked = b.locked ⊖ given }) inv

  unfoldable pub settle : Inventory F → String → String → F → Inventory F
  settle inv venue_id asset amount =
      let b = get_balance inv venue_id asset in
      set (venue_id, asset) (record b { locked = max nought (b.locked ⊖ amount) }) inv

  unfoldable pub credit : Inventory F → String → String → F → Inventory F
  credit inv venue_id asset amount =
      let b = get_balance inv venue_id asset in
      if amount ≤? nought
      then inv
      else set (venue_id, asset) (record b { free = b.free ⊕ amount }) inv

  -- The sum over the entries of one asset, from the left.
  unfoldable pub sum_of_asset : F → String → Inventory F → F
  sum_of_asset acc asset [] = acc
  sum_of_asset acc asset ((key, b) ∷ inv) =
      sum_of_asset (if string_key.same key.1 asset then acc ⊕ total b else acc) asset inv

  unfoldable pub total_across_venues : Inventory F → String → F
  unfolding sum_of_asset
  total_across_venues inv asset = sum_of_asset nought asset inv

  -- `{v: self.get_balance(v, asset).total for v in venues}`
  unfoldable pub per_venue : Inventory F → String → List String → Dict String F → Dict String F
  per_venue inv asset [] d = d
  per_venue inv asset (v ∷ venues) d =
      per_venue inv asset venues (set v (total (get_balance inv v asset)) d)

  -- `max(per_venue, key=per_venue.get)`: the first of the largest, with the best so far.
  unfoldable pub richest : String → F → Dict String F → String
  richest best amount [] = best
  richest best amount ((v, x) ∷ d) =
      richest (if amount <? x then v else best) (if amount <? x then x else amount) d

  unfoldable pub richest_of : Dict String F → String → String
  unfolding richest
  richest_of [] default = default
  richest_of ((v, x) ∷ d) default = richest v x d

  -- REBALANCE_TRIGGER_RATIO
  abbrev pub trigger_ratio : F
  trigger_ratio = f.lit 15 2

  -- The loop over the venues.
  unfoldable pub underfunded :
      String → F → F → Dict String F → Dict String F → List (RebalanceSignal F)
  unfolding richest_of
  underfunded asset sum fair_fraction all [] = []
  underfunded asset sum fair_fraction all ((venue_id, amount) ∷ d) =
      let rest = underfunded asset sum fair_fraction all d in
      let fraction = if sum ==? nought then nought else amount ⊘ sum in
      let source = richest_of all venue_id in
      if fraction <? fair_fraction ⊗ trigger_ratio
      then (if string_key.same source venue_id
          then rest
          else record {
            asset = asset;
            underfunded_venue = venue_id;
            current_fraction = fraction;
            fair_fraction = fair_fraction;
            suggested_source_venue = source;
          }
            ∷ rest)
      else rest

  unfoldable pub imbalance_report : Inventory F → String → List String → List (RebalanceSignal F)
  unfolding underfunded per_venue total_across_venues
  imbalance_report inv asset venues =
      let sum = total_across_venues inv asset in
      let table = per_venue inv asset venues [] in
      if sum ≤? nought || length venues == 0
      then []
      else underfunded asset sum (f.lit 1 0 ⊘ f.lit (length venues) 0) table table

  -- The fee of a rebalancing transfer, zero where the venue or the asset is not in the table.
  unfoldable pub estimate_transfer : Venues F → String → String → String → F → TransferEstimate F
  estimate_transfer t from_venue to_venue asset latency_sec = record {
    from_venue = from_venue;
    to_venue = to_venue;
    asset = asset;
    fee_units = elim (lookup from_venue t.cex) [
      | none ↦ nought
      | some venue ↦ get nought asset venue.withdrawal_fees
    ];
    latency_sec = latency_sec;
  }
