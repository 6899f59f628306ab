-- ===== src/Strategies/Shared.antt =====
-- What the strategies share: fees, freshness, and the opportunity with two legs.
use crypto_arb_engine.Prelude.{Bool, true, false, Option, none, some, List, [], ◌∷◌, ◌++◌, String}
use crypto_arb_engine.Prelude.Sort.{sort}
use crypto_arb_engine.Float.{Float, ◌<?◌}
use crypto_arb_engine.Core.Types.{Side, Leg, Opportunity}
use crypto_arb_engine.Core.Book.{
  BookState, OrderBook, BookStore, age_sec, find_book, books_for_symbol,
}
use crypto_arb_engine.Core.Market.{MarketState}
use crypto_arb_engine.Config.Venues.{Venues, taker_fee_for}

-- `[y for x in xs for y in f(x)]`
unfoldable pub concat_map {ℓ κ} : {A : Type ℓ} {B : Type κ} → (A → List B) → List A → List B
concat_map f [] = []
concat_map f (x ∷ xs) = f x ++ concat_map f xs

-- `itertools.combinations(xs, 2)`
abbrev pub pair_with {ℓ} : {A : Type ℓ} → A → List A → List (A × A)
pair_with x [] = []
pair_with x (y ∷ ys) = (x, y) ∷ pair_with x ys

unfoldable pub combinations {ℓ} : {A : Type ℓ} → List A → List (A × A)
combinations [] = []
combinations (x ∷ xs) = pair_with x xs ++ combinations xs

abbrev pub first_of {ℓ} : {A : Type ℓ} → List A → Option A
first_of [] = none
first_of (x ∷ xs) = some x

abbrev pub opposite : Side → Side
opposite Side.buy = Side.sell
opposite Side.sell = Side.buy
opposite Side.transfer = Side.transfer

-- Where a leg trades: venue, symbol, price and fee.
pub record Market (F : Type 0) : Type 0 where
  pub venue_id : String
  pub symbol : String
  pub price : F
  pub fee : F

module _ {F : Type 0} where
  abbrev pub leg_at : Side → F → Market F → Leg F
  leg_at side size m = record {
    venue_id = m.venue_id;
    symbol = m.symbol;
    side = side;
    price = m.price;
    size = size;
    fee = m.fee;
  }

  -- `store.get(venue, symbol) or first of store.all_for_symbol(symbol)`
  abbrev pub or_first : Option (OrderBook F) → List (OrderBook F) → Option (OrderBook F)
  or_first (some book) books = some book
  or_first none books = first_of books

  unfoldable pub book_or_first : BookStore F → String → String → String → Option (OrderBook F)
  book_or_first store venue_id symbol other =
      or_first (find_book store venue_id symbol) (books_for_symbol store other)

module _ {F : Type 0} ⦃f : Float F⦄ where
  -- TAKER_FEE_FALLBACK and MAKER_FEE_FALLBACK
  abbrev pub taker_fallback : F
  taker_fallback = f.lit 1 3

  abbrev pub maker_fallback : F
  maker_fallback = f.lit 2 4

  abbrev pub taker_fee_at : Venues F → String → F
  taker_fee_at t venue_id = taker_fee_for t venue_id taker_fallback none

  -- `state.age_sec > market_state.staleness_sec`, at the time `now`.
  unfoldable pub is_stale : F → MarketState F → BookState F → Bool
  is_stale now m st = m.staleness_sec <? age_sec now st

  -- An opportunity that is not atomic and uses inventory that is there.
  abbrev pub report :
      (name symbol : String) → List (Leg F) → (gross net size now : F) → Opportunity F
  report name symbol legs gross net size now = record {
    strategy = name;
    symbol = symbol;
    legs = legs;
    gross_profit_pct = gross;
    net_profit_pct = net;
    max_size_usd = size;
    detected_at = now;
    requires_prefunded_inventory = true;
    is_atomic = false;
    reservations = none;
  }

  -- The same, where one venue fills the legs one after the other.
  abbrev pub on_one_venue : Opportunity F → Opportunity F
  on_one_venue o = record o { requires_prefunded_inventory = false }

  abbrev pub by_net_down : Opportunity F → Opportunity F → Bool
  by_net_down a b = b.net_profit_pct <? a.net_profit_pct

  -- `opportunities.sort(key=lambda o: o.net_profit_pct, reverse=True)`
  abbrev pub best_first : List (Opportunity F) → List (Opportunity F)
  best_first = sort by_net_down
