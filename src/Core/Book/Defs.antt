-- ===== src/Core/Book/Defs.antt =====
-- `BookState` and `OrderBook`.
use crypto_arb_engine.Prelude.{Bool, List, [], ◌∷◌, String, if◌then◌else◌}
use crypto_arb_engine.Prelude.Dict.{Dict, Key, set, remove}
use crypto_arb_engine.Prelude.Sort.{sort}
use crypto_arb_engine.Float.{Float, ◌⊕◌, ◌⊖◌, ◌⊗◌, ◌⊘◌, ◌<?◌, ◌≤?◌, nought, min}
use crypto_arb_engine.Core.Types.{Side, is_buy}

abbrev pub Level : Type 0 → Type 0
Level F = F × F

pub record BookState (F : Type 0) : Type 0 where
  pub bids : List (Level F)
  pub asks : List (Level F)
  pub timestamp : F

pub record OrderBook (F : Type 0) : Type 0 where
  pub venue_id : String
  pub symbol : String
  pub state : BookState F

module _ {F : Type 0} ⦃f : Float F⦄ where
  -- `_EMPTY_STATE`
  abbrev pub empty_state : BookState F
  empty_state = record { bids = []; asks = []; timestamp = nought }

  unfoldable pub head_price : F → List (Level F) → F
  head_price default [] = default
  head_price default ((p, s) ∷ _) = p

  unfoldable pub head_size : List (Level F) → F
  head_size [] = nought
  head_size ((p, s) ∷ _) = s

  unfoldable pub best_bid : BookState F → F
  unfolding head_price
  best_bid st = head_price nought st.bids

  unfoldable pub best_ask : BookState F → F
  unfolding head_price
  best_ask st = head_price f.inf st.asks

  unfoldable pub best_bid_size : BookState F → F
  unfolding head_size
  best_bid_size st = head_size st.bids

  unfoldable pub best_ask_size : BookState F → F
  unfolding head_size
  best_ask_size st = head_size st.asks

  -- At the time `now`.
  unfoldable pub age_sec : F → BookState F → F
  age_sec now st = now ⊖ st.timestamp

  -- The loop of `vwap_fill_price`: the cost and the filled size at its end.
  unfoldable pub fill : (remaining cost filled : F) → List (Level F) → F × F
  fill remaining cost filled [] = (cost, filled)
  fill remaining cost filled ((price, level_size) ∷ levels) =
      let take = min remaining level_size in
      let cost' = cost ⊕ take ⊗ price in
      let filled' = filled ⊕ take in
      let remaining' = remaining ⊖ take in
      let rest = fill remaining' cost' filled' levels in
      if remaining' ≤? nought then (cost', filled') else rest

  -- The average price and the filled size; any side but "buy" walks the bids.
  unfoldable pub vwap_fill_price : BookState F → Side → F → F × F
  vwap_fill_price st side size =
      let (cost, filled) = fill size nought nought (if is_buy side then st.asks else st.bids) in
      if filled ≤? nought then (nought, nought) else (cost ⊘ filled, filled)

  -- `key=lambda level: -level[0]` and `key=lambda level: level[0]`.
  abbrev pub by_price_down : Level F → Level F → Bool
  by_price_down a b = f.neg a.0 <? f.neg b.0

  abbrev pub by_price_up : Level F → Level F → Bool
  by_price_up a b = a.0 <? b.0

  abbrev pub new_book : String → String → OrderBook F
  new_book venue_id symbol = record { venue_id = venue_id; symbol = symbol; state = empty_state }

  unfoldable pub replace : F → List (Level F) → List (Level F) → OrderBook F → OrderBook F
  replace now bids asks book = record book {
    state = record {
      bids = sort by_price_down bids;
      asks = sort by_price_up asks;
      timestamp = now;
    };
  }

  module _ ⦃key : Key F⦄ where
    -- `dict(zip(prices, sizes))`: of two levels at one price the later one stays.
    unfoldable pub dict_from : Dict F F → List (Level F) → Dict F F
    dict_from d [] = d
    dict_from d ((p, s) ∷ levels) = dict_from (set p s d) levels

    -- The loop over one side's updates.
    unfoldable pub update_levels : List (Level F) → Dict F F → Dict F F
    update_levels [] d = d
    update_levels ((price, size) ∷ updates) d =
        update_levels updates (if size ≤? nought then remove price d else set price size d)

    unfoldable pub apply_diff : F → List (Level F) → List (Level F) → OrderBook F → OrderBook F
    unfolding dict_from update_levels
    apply_diff now bid_updates ask_updates book =
        let prior = book.state in
        let bid_map = update_levels bid_updates (dict_from [] prior.bids) in
        let ask_map = update_levels ask_updates (dict_from [] prior.asks) in
        record book {
          state = record {
            bids = sort by_price_down bid_map;
            asks = sort by_price_up ask_map;
            timestamp = now;
          };
        }
