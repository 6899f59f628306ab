-- ===== src/Core/Market/Defs.antt =====
-- The snapshot.
use crypto_arb_engine.Prelude.{
  Bool, true, false, not, Option, none, some, List, [], ◌∷◌, String, if◌then◌else◌, ◌||◌,
}
use crypto_arb_engine.Prelude.Dict.{Dict, string_key, lookup, set}
use crypto_arb_engine.Float.{Float, ◌⊖◌, ◌<?◌, ◌==?◌, nought}
use crypto_arb_engine.Core.Types.{FundingRate, FuturesQuote}
use crypto_arb_engine.Core.Book.{
  BookState, OrderBook, BookStore, books_for_symbol, best_bid, best_ask, best_bid_size,
  best_ask_size,
}

pub record PoolState (F : Type 0) : Type 0 where
  pub dex_id : String
  pub chain : String
  pub symbol : String
  pub reserve_base : F
  pub reserve_quote : F
  pub fee : F
  pub timestamp : F
  pub tick_liquidity : Option F
  pub sqrt_price_x96 : Option F

-- One venue's entries in the arrays of a `SymbolMatrix`.
pub record Row (F : Type 0) : Type 0 where
  pub venue_id : String
  pub bid_price : F
  pub ask_price : F
  pub bid_size : F
  pub ask_size : F
  pub timestamp : F

abbrev pub SymbolMatrix : Type 0 → Type 0
SymbolMatrix F = List (Row F)

pub record MarketState (F : Type 0) : Type 0 where
  pub book_store : BookStore F
  pub symbols : List String
  pub taken_at : F
  pub funding_rates : Dict (String × String) (FundingRate F)
  pub futures_quotes : Dict (String × String × F) (FuturesQuote F)
  pub dex_pools : Dict String (PoolState F)
  pub gas_price_usd : Dict String F
  pub staleness_sec : F
  pub matrix_cache : Dict String (SymbolMatrix F)

abbrev pub has_levels {ℓ} : {A : Type ℓ} → List A → Bool
has_levels [] = false
has_levels (x ∷ xs) = true

module _ {F : Type 0} ⦃f : Float F⦄ where
  -- A book that was updated, recently enough, and that has both sides.
  unfoldable pub usable : (now staleness_sec : F) → BookState F → Bool
  usable now staleness_sec st =
      if st.timestamp ==? nought || staleness_sec <? now ⊖ st.timestamp
      then false
      else (if not (has_levels st.bids) || not (has_levels st.asks) then false else true)

  abbrev pub row_of : OrderBook F → Row F
  row_of book = record {
    venue_id = book.venue_id;
    bid_price = best_bid book.state;
    ask_price = best_ask book.state;
    bid_size = best_bid_size book.state;
    ask_size = best_ask_size book.state;
    timestamp = book.state.timestamp;
  }

  -- The loop over the books.
  unfoldable pub rows_of : (now staleness_sec : F) → List (OrderBook F) → SymbolMatrix F
  unfolding usable
  rows_of now staleness_sec [] = []
  rows_of now staleness_sec (b ∷ books) =
      let rest = rows_of now staleness_sec books in
      if usable now staleness_sec b.state then row_of b ∷ rest else rest

  -- What the cache holds is the answer; else the matrix that was built is kept and answered.
  abbrev pub answer :
      String
      → SymbolMatrix F
      → Option (SymbolMatrix F)
      → MarketState F
      → MarketState F × SymbolMatrix F
  answer symbol built (some cached) m = (m, cached)
  answer symbol built none m = (record m { matrix_cache = set symbol built m.matrix_cache }, built)

  -- At the time `now`: the snapshot with its cache afterwards, and the matrix.
  unfoldable pub matrix_for_symbol : F → String → MarketState F → MarketState F × SymbolMatrix F
  unfolding rows_of
  matrix_for_symbol now symbol m =
      answer symbol (rows_of now m.staleness_sec (books_for_symbol m.book_store symbol))
        (lookup symbol m.matrix_cache) m
