-- ===== src/Strategies/Spot/CrossQuote.antt =====
-- strategies/cross_quote.py: `CrossQuoteStrategy`. A symbol is taken to have at most one slash, as the
-- code's unpacking of `symbol.split("/")` does.
use Prim.Native.String.{◌++◌ as text_append}
use crypto_arb_engine.Prelude.{
  Option, none, some, List, [], ◌∷◌, ◌++◌, String, if◌then◌else◌, ◌||◌, ltb, length,
}
use crypto_arb_engine.Prelude.Dict.{Dict, pair_key, get, set}
use crypto_arb_engine.Prelude.Text.{split_slash}
use crypto_arb_engine.Float.{Float, ◌⊖◌, ◌⊗◌, ◌⊘◌, ◌<?◌, ◌≤?◌, nought, min, hundred}
use crypto_arb_engine.Core.Types.{Side, Opportunity}
use crypto_arb_engine.Core.Book.{
  BookState, OrderBook, find_book, venues_for_symbol, best_bid, best_ask, best_bid_size,
  best_ask_size,
}
use crypto_arb_engine.Core.Graph.{member}
use crypto_arb_engine.Core.Market.{MarketState}
use crypto_arb_engine.Config.Venues.{Venues}
use crypto_arb_engine.Config.Universe.{stablecoins}
use crypto_arb_engine.Strategies.Shared.{
  concat_map, combinations, leg_at, taker_fee_at, is_stale, report, on_one_venue, best_first,
}
use crypto_arb_engine.Strategies.Pairs.{Settings}

-- `by_base`: the symbols of each venue and base whose quote is a stablecoin.
abbrev pub ByBase : Type 0
ByBase = Dict (String × String) (List String)

unfoldable pub add_venues : String → String → List String → ByBase → ByBase
add_venues symbol base [] d = d
add_venues symbol base (v ∷ venues) d =
    add_venues symbol base venues (set (v, base) (get [] (v, base) d ++ (symbol ∷ [])) d)

-- What one symbol adds.
unfoldable pub group_symbol :
    {F : Type 0} → MarketState F → String → Option (String × String) → ByBase → ByBase
unfolding add_venues
group_symbol m symbol none d = d
group_symbol m symbol (some (base, quote)) d =
    if member quote stablecoins
    then add_venues symbol base (venues_for_symbol m.book_store symbol) d
    else d

abbrev pub quote_of : Option (String × String) → String
quote_of none = ""
quote_of (some (base, quote)) = quote

unfoldable pub group_symbols : {F : Type 0} → MarketState F → List String → ByBase → ByBase
unfolding group_symbol
group_symbols m [] d = d
group_symbols m (symbol ∷ symbols) d =
    group_symbols m symbols (group_symbol m symbol (split_slash symbol) d)

module _ {F : Type 0} ⦃f : Float F⦄ where
  -- Buying at one book of the venue and selling at another; prices and states of both.
  abbrev pub quote_trade :
      Settings F
      → (now : F) → (venue_id base buy_symbol sell_symbol : String) → (fee : F)
      → (buy sell : BookState F) → List (Opportunity F)
  quote_trade cfg now venue_id base buy_symbol sell_symbol fee buy sell =
      let gross = (best_bid sell ⊖ best_ask buy) ⊘ best_ask buy ⊗ hundred in
      let net = gross ⊖ fee ⊗ f.lit 2 0 ⊗ hundred in
      let size_usd =
        min (min (best_ask_size buy) (best_bid_size sell) ⊗ best_ask buy) cfg.max_trade_usd in
      let units = size_usd ⊘ best_ask buy in
      let opp = on_one_venue (
        report "cross_quote"
          (text_append base (
            text_append ":" (
              text_append (quote_of (split_slash buy_symbol))
                (text_append "/" (quote_of (split_slash sell_symbol))))))
          (leg_at Side.buy units
              (record { venue_id = venue_id; symbol = buy_symbol; price = best_ask buy; fee = fee })
            ∷ leg_at Side.sell units (record {
              venue_id = venue_id;
              symbol = sell_symbol;
              price = best_bid sell;
              fee = fee;
            })
            ∷ [])
          gross net size_usd now) in
      if net <? cfg.min_profit_pct then [] else (if size_usd ≤? nought then [] else opp ∷ [])

  unfoldable pub compare :
      Settings F
      → (now : F) → MarketState F
      → (venue_id base buy_symbol sell_symbol : String) → F
      → Option (OrderBook F)
      → Option (OrderBook F)
      → List (Opportunity F)
  unfolding is_stale
  compare cfg now m venue_id base buy_symbol sell_symbol fee none sell = []
  compare cfg now m venue_id base buy_symbol sell_symbol fee (some buy) none = []
  compare cfg now m venue_id base buy_symbol sell_symbol fee (some buy) (some sell) =
      if is_stale now m buy.state || is_stale now m sell.state
      then []
      else (if best_ask buy.state ≤? nought || best_bid sell.state ≤? nought
          then []
          else quote_trade cfg now venue_id base buy_symbol sell_symbol fee buy.state sell.state)

  abbrev pub compare_books :
      Settings F
      → (now : F) → MarketState F
      → (venue_id base : String) → F
      → String
      → String
      → List (Opportunity F)
  compare_books cfg now m venue_id base fee buy_symbol sell_symbol =
      compare cfg now m venue_id base buy_symbol sell_symbol fee
        (find_book m.book_store venue_id buy_symbol) (find_book m.book_store venue_id sell_symbol)

  -- Both directions of a pair of symbols.
  unfoldable pub both_ways :
      Settings F
      → (now : F) → MarketState F
      → (venue_id base : String) → F
      → String × String
      → List (Opportunity F)
  unfolding compare
  both_ways cfg now m venue_id base fee (symbol_a, symbol_b) =
      compare_books cfg now m venue_id base fee symbol_a symbol_b
      ++ compare_books cfg now m venue_id base fee symbol_b symbol_a

  unfoldable pub quotes_of :
      Settings F
      → Venues F
      → (now : F) → MarketState F
      → (String × String) × List String
      → List (Opportunity F)
  unfolding both_ways
  quotes_of cfg t now m ((venue_id, base), symbols) =
      if ltb (length symbols) 2
      then []
      else concat_map (both_ways cfg now m venue_id base (taker_fee_at t venue_id))
          (combinations symbols)

  unfoldable pub cross_quote_scan :
      Settings F → Venues F → (now : F) → MarketState F → List (Opportunity F)
  unfolding quotes_of group_symbols
  cross_quote_scan cfg t now m =
      best_first (concat_map (quotes_of cfg t now m) (group_symbols m m.symbols []))
